-- ===== src/Runtime/Policy/Binding.antt =====
-- What bind accepts, and what it refuses.
use subsea_cable_runtime.Base.{
  ℕ, ◌≡◌, refl, true, false, Option, none, some, String, List, [], ◌∷◌, get, string_eq, Bool-cases,
  inl, inr,
}
use subsea_cable_runtime.Diag.{Err, Res, ok, err}
use subsea_cable_runtime.Carousel.{Occurrence, PolicyRef}
use subsea_cable_runtime.Runtime.Policy.{
  Interpreter, Registry, BoundPolicy, policy_diag, supports, may_follow, bind_checked, bind_one,
  bound_and, bind_from, bind,
}

-- A policy that bind accepts after the policy `prev`.
pub record IsAccepted {S : Type 0} (registry : Registry S) (o : Occurrence) (prev : Option String)
    (ref : PolicyRef) (i : Interpreter S) : Type 0 where
  pub registered : get ref.ident registry.interps ≡ some i
  pub supported : supports o.kind i.targets ≡ true
  pub valid : i.validate ref.args ≡ true
  pub follows : may_follow registry prev ref.ident ≡ true

-- The first reason that there is to refuse a policy.
pub data IsRefused {S : Type 0} (registry : Registry S) (o : Occurrence) (prev : Option String)
    (ref : PolicyRef) (e : Err) : Type 0 where
  unknown :
      get ref.ident registry.interps ≡ none
      → e ≡ Err.diagnostic (policy_diag "UnknownPolicy" o ref)
      → IsRefused registry o prev ref e
  unsupported :
      (i : Interpreter S)
      → get ref.ident registry.interps ≡ some i
      → supports o.kind i.targets ≡ false
      → e ≡ Err.diagnostic (policy_diag "UnsupportedPolicyTarget" o ref)
      → IsRefused registry o prev ref e
  invalid :
      (i : Interpreter S)
      → get ref.ident registry.interps ≡ some i
      → supports o.kind i.targets ≡ true
      → i.validate ref.args ≡ false
      → e ≡ Err.diagnostic (policy_diag "InvalidPolicyArguments" o ref)
      → IsRefused registry o prev ref e
  conflicting :
      (i : Interpreter S)
      → get ref.ident registry.interps ≡ some i
      → supports o.kind i.targets ≡ true
      → i.validate ref.args ≡ true
      → may_follow registry prev ref.ident ≡ false
      → e ≡ Err.diagnostic (policy_diag "PolicyConflict" o ref)
      → IsRefused registry o prev ref e

-- The policies of a list, each after the one before it: all accepted, or the first that is refused.
pub data Binding {S : Type 0} (registry : Registry S) (o : Occurrence)
    : Option String → List PolicyRef → Res (List (BoundPolicy S)) → Type 0 where
  all_bound : {prev : Option String} → Binding registry o prev [] (ok [])
  bound_first :
      {prev : Option String} {refs : List PolicyRef} {bs : List (BoundPolicy S)} (b : BoundPolicy S)
      → IsAccepted registry o prev b.ref b.interp
      → Binding registry o (some b.ref.ident) refs (ok bs)
      → Binding registry o prev (b.ref ∷ refs) (ok (b ∷ bs))
  refused_first :
      {prev : Option String} {refs : List PolicyRef} {e : Err} (ref : PolicyRef)
      → IsRefused registry o prev ref e
      → Binding registry o prev (ref ∷ refs) (err e)
  refused_later :
      {prev : Option String} {refs : List PolicyRef} {e : Err} (ref : PolicyRef) (i : Interpreter S)
      → IsAccepted registry o prev ref i
      → Binding registry o (some ref.ident) refs (err e)
      → Binding registry o prev (ref ∷ refs) (err e)

module _ {S : Type 0} (registry : Registry S) (o : Occurrence) (now : ℕ) where
  -- The answer on a policy that is registered.
  checked-Binding :
      (prev : Option String) (ref : PolicyRef) (i : Interpreter S) (refs : List PolicyRef)
      (rest : Res (List (BoundPolicy S)))
      → get ref.ident registry.interps ≡ some i
      → Binding registry o (some ref.ident) refs rest
      → Binding registry o prev
          (ref ∷ refs)
          (bound_and (bind_checked registry o now prev ref i) rest)
  unfolding bind_checked bound_and
  checked-Binding prev ref i refs rest e b = elim (Bool-cases (supports o.kind i.targets)) [
    | inr s ↦ rw s (refused_first ref (unsupported i e s refl))
    | inl s ↦ elim (Bool-cases (i.validate ref.args)) [
      | inr v ↦ rw (s, v) (refused_first ref (invalid i e s v refl))
      | inl v ↦ elim (Bool-cases (may_follow registry prev ref.ident)) [
        | inr f ↦ rw (s, v, f) (refused_first ref (conflicting i e s v f refl))
        | inl f ↦
            rw (s, v, f)
              (accepted rest (record { registered = e; supported = s; valid = v; follows = f }) b)
      ]
    ]
  ]
    where
      bound : BoundPolicy S
      bound = record {
        ref = ref;
        interp = i;
        state = i.attach (record { occurrence = o; args = ref.args; now = now; attempts = 0 });
      }

      accepted :
          (rest : Res (List (BoundPolicy S)))
          → IsAccepted registry o prev ref i
          → Binding registry o (some ref.ident) refs rest
          → Binding registry o prev (ref ∷ refs) (bound_and (ok bound) rest)
      accepted (ok bs) a b = bound_first bound a b
      accepted (err e) a b = refused_later ref i a b

  one-Binding :
      (prev : Option String) (ref : PolicyRef) (refs : List PolicyRef)
      (rest : Res (List (BoundPolicy S))) (mi : Option (Interpreter S))
      → get ref.ident registry.interps ≡ mi
      → Binding registry o (some ref.ident) refs rest
      → Binding registry o prev (ref ∷ refs) (bound_and (bind_one registry o now prev ref mi) rest)
  unfolding bind_one bound_and
  one-Binding prev ref refs rest none e b = refused_first ref (unknown e refl)
  one-Binding prev ref refs rest (some i) e b = checked-Binding prev ref i refs rest e b

  bind_from-Binding :
      (prev : Option String) (refs : List PolicyRef)
      → Binding registry o prev refs (bind_from registry o now prev refs)
  unfolding bind_from
  bind_from-Binding prev [] = all_bound
  bind_from-Binding prev (ref ∷ refs) =
      one-Binding prev ref refs _ (get ref.ident registry.interps) refl
        (bind_from-Binding (some ref.ident) refs)

  -- Binding a Goal's policies returns all of them bound, each accepted after the ones before it,
  -- or the diagnostic of the first that is refused, with the first reason that applies to it:
  -- unknown kind, unsupported target, invalid arguments, or conflict.
  pub bind-Binding : Binding registry o none o.policies (bind registry o now)
  unfolding bind
  bind-Binding = bind_from-Binding none o.policies
