-- ===== src/Base/Maps.antt =====
-- Go maps as association lists. `put` keeps the place of a key that is there already.
use Prim.Native.Nat.{◌+◌, ◌<◌, ◌≤◌}
use mathlib.Core.Path.{◌≡◌, refl, ap, ◌∙◌}
use mathlib.Core.Logic.{inl, inr}
use mathlib.Core.Bool.{true}
use mathlib.Core.Option.{Option, none, some}
use mathlib.Core.List.{List, [], ◌∷◌}
use native.Mathlib.Omega.{arith}
use subsea_cable_runtime.Base.Tests.{if◌then◌else◌, Eq, ◌==◌, Bool-cases, is_some}
use subsea_cable_runtime.Base.Lists.{length}

abbrev pub Map {ℓ κ} : Type ℓ → Type κ → Type (ℓ ⊔ κ)
Map K V = List (K × V)

module _ {ℓ κ} {K : Type ℓ} {V : Type κ} ⦃e : Eq K⦄ where
  unfoldable pub get : K → Map K V → Option V
  get k [] = none
  get k ((j, v) ∷ m) = if j == k then some v else get k m

  unfoldable pub put : K → V → Map K V → Map K V
  put k v [] = (k, v) ∷ []
  put k v ((j, w) ∷ m) = if j == k then (j, v) ∷ m else (j, w) ∷ put k v m

  unfoldable pub del : K → Map K V → Map K V
  del k [] = []
  del k ((j, w) ∷ m) = if j == k then del k m else (j, w) ∷ del k m

  -- Read after write.
  pub get-put :
      (k j : K) (v : V) (m : Map K V) → get j (put k v m) ≡ (if k == j then some v else get j m)
  unfolding get put
  get-put k j v [] = refl
  get-put k j v ((i, w) ∷ m) =
      ground (arith, e.beq_iff k j, e.beq_iff i k, e.beq_iff i j, get-put k j v m)

  -- Read after delete.
  pub get-del : (k j : K) (m : Map K V) → get j (del k m) ≡ (if k == j then none else get j m)
  unfolding get del
  get-del k j [] = ground arith
  get-del k j ((i, w) ∷ m) =
      ground (arith, e.beq_iff k j, e.beq_iff i k, e.beq_iff i j, get-del k j m)

  -- No key stands twice.
  abbrev pub Distinct : Map K V → Type κ
  Distinct [] = Unit
  Distinct ((j, w) ∷ m) = (get j m ≡ none) × Distinct m

  pub put-Distinct : (k : K) (v : V) (m : Map K V) → Distinct m → Distinct (put k v m)
  unfolding get put
  put-Distinct k v [] d = (refl, tt)
  put-Distinct k v ((j, w) ∷ m) d = elim (Bool-cases (j == k)) [
    | inl same ↦ rw same d
    | inr other ↦ rw other (
      get-put k j v m ∙ ground (arith, d.0, other, e.beq_iff k j, e.beq_iff j k),
      put-Distinct k v m d.1,
    )
  ]

  pub del-Distinct : (k : K) (m : Map K V) → Distinct m → Distinct (del k m)
  unfolding get del
  del-Distinct k [] d = tt
  del-Distinct k ((j, w) ∷ m) d = elim (Bool-cases (j == k)) [
    | inl same ↦ rw same (del-Distinct k m d.1)
    | inr other ↦ rw other (get-del k j m ∙ ground (arith, d.0), del-Distinct k m d.1)
  ]

  pub del_absent : (k : K) (m : Map K V) → get k m ≡ none → del k m ≡ m
  unfolding get del
  del_absent k [] h = refl
  del_absent k ((j, w) ∷ m) h = ground (arith, del_absent k m)

  -- A key that was there takes one entry away.
  pub length-del :
      (k : K) (m : Map K V)
      → Distinct m
      → is_some (get k m) ≡ true
      → length (del k m) + 1 ≡ length m
  unfolding get del
  length-del k [] d h = cc
  length-del k ((j, w) ∷ m) d h = elim (Bool-cases (j == k)) [
    | inl same ↦
        rw same
          (omega (arith, ap length (del_absent k m (ground (arith, d.0, same, e.beq_iff j k)))))
    | inr other ↦ rw other (omega (arith, length-del k m d.1 (ground (arith, h, other))))
  ]

  pub length-del_le : (k : K) (m : Map K V) → length (del k m) ≤ length m
  unfolding del
  length-del_le k [] = omega arith
  length-del_le k ((j, w) ∷ m) = ground (arith, length-del_le k m)

  pub length-del_lt : (k : K) (m : Map K V) → is_some (get k m) ≡ true → length (del k m) < length m
  unfolding get del
  length-del_lt k [] h = cc
  length-del_lt k ((j, w) ∷ m) h = elim (Bool-cases (j == k)) [
    | inl same ↦ rw same (omega (arith, length-del_le k m))
    | inr other ↦ rw other (omega (arith, length-del_lt k m (ground (arith, h, other))))
  ]
