-- ===== src/Codebase/Ledger.antt =====
-- The deduction ledger: one record for each occurrence of a run, numbered in commit order.
use subsea_cable_runtime.Base.{
  ℕ, ◌+◌, ◌≡◌, ◌≢◌, ◌⊎◌, refl, sym, ap, ◌∙◌, true, Option, none, some, String, [], ◌∷◌, ◌++◌, ◌==◌,
  string_eq, nat_eq, pair_eq, if◌then◌else◌, get, put, get-put, is_some, arith, length, get_elem?,
  get_elem?-snoc, get_elem?-lt, Bool-cases, inl, inr, nat_beq, Option-cases,
}
use subsea_cable_runtime.Diag.{Res, ok, err, plain}
use subsea_cable_runtime.Codebase.{
  Codebase, DeductionRecord, append_deduction, get_deduction, record_at, new_codebase,
}

abbrev run_occ : DeductionRecord → String × String
run_occ r = (r.run_id, r.occurrence)

-- `by_occ` finds each record at its place, and finds nothing else; records are numbered from 1.
pub record IsIndexed (c : Codebase) : Type 0 where
  pub points :
      (k : String × String) (i : ℕ)
      → get k c.by_occ ≡ some i
      → (r : DeductionRecord) × (get_elem? c.ledger i ≡ some r) × ((r.run_id, r.occurrence) ≡ k)
  pub complete :
      (i : ℕ) (r : DeductionRecord)
      → get_elem? c.ledger i ≡ some r
      → get (r.run_id, r.occurrence) c.by_occ ≡ some i
  pub numbered : (i : ℕ) (r : DeductionRecord) → get_elem? c.ledger i ≡ some r → r.seq ≡ i + 1

pub new-IsIndexed : IsIndexed new_codebase
unfolding new_codebase get
new-IsIndexed = record { points = λ k i h. cc; complete = λ i r h. cc; numbered = λ i r h. cc }

module _ (c : Codebase) (r : DeductionRecord) where
  appended : DeductionRecord
  appended = record r { seq = length c.ledger + 1 }

  with_record : Codebase
  unfolding appended
  with_record = record c {
    by_occ = put (r.run_id, r.occurrence) (length c.ledger) c.by_occ;
    ledger = c.ledger ++ appended ∷ [];
  }

  -- Which of its ways AppendDeduction takes.
  append_cases {ℓ} :
      (P : Res DeductionRecord × Codebase → Type ℓ)
      → ((r.run_id ≡ "") ⊎ ((i : ℕ) × (get (run_occ r) c.by_occ ≡ some i)) → P (err plain, c))
      → (r.run_id ≢ "" → get (run_occ r) c.by_occ ≡ none → P (ok appended, with_record))
      → P (append_deduction c r)
  unfolding append_deduction with_record
  append_cases P refused added = elim (Bool-cases (r.run_id == "")) [
    | inl e ↦ rw e (refused (inl ((string_eq.beq_iff r.run_id "").0 e)))
    | inr named ↦ rw named (elim (Option-cases (get (r.run_id, r.occurrence) c.by_occ)) [
      | inr (i, e) ↦ rw e (refused (inr (i, e)))
      | inl e ↦ rw e (added (λ x. cc ((string_eq.beq_iff r.run_id "").1 x)) e)
    ])
  ]

  module _ (fresh : get (run_occ r) c.by_occ ≡ none) (h : IsIndexed c) where
    points_after :
        (k : String × String) (i : ℕ)
        → get k with_record.by_occ ≡ some i
        → (x : DeductionRecord) × (get_elem? with_record.ledger i ≡ some x)
          × ((x.run_id, x.occurrence) ≡ k)
    unfolding with_record appended
    points_after k i e = elim (Bool-cases (run_occ r == k)) [
      | inl same ↦ (
        appended,
        ground (arith, found, same, get_elem?-snoc c.ledger appended i),
        (pair_eq.beq_iff (run_occ r) k).0 same,
      )
      | inr other ↦
          let (x, at, key) = h.points k i (ground (arith, found, other)) in
          (
            x,
            ground (arith, at, get_elem?-lt c.ledger i x at, get_elem?-snoc c.ledger appended i),
            key,
          )
    ]
      where
        found : (if run_occ r == k then some (length c.ledger) else get k c.by_occ) ≡ some i
        found = sym (get-put (run_occ r) k (length c.ledger) c.by_occ) ∙ e

    complete_after :
        (i : ℕ) (x : DeductionRecord)
        → get_elem? with_record.ledger i ≡ some x
        → get (x.run_id, x.occurrence) with_record.by_occ ≡ some i
    unfolding with_record appended
    complete_after i x e = get-put (run_occ r) (run_occ x) (length c.ledger) c.by_occ ∙ by_place
      where
        place :
            (if nat_beq i (length c.ledger) then some appended else get_elem? c.ledger i) ≡ some x
        place = sym (get_elem?-snoc c.ledger appended i) ∙ e

        by_place :
            (if run_occ r == run_occ x then some (length c.ledger) else get (run_occ x) c.by_occ)
            ≡ some i
        by_place = elim (Bool-cases (nat_beq i (length c.ledger))) [
          | inl last ↦ ground (
            arith,
            place,
            last,
            string_eq.beq_iff r.run_id x.run_id,
            string_eq.beq_iff r.occurrence x.occurrence,
          )
          | inr earlier ↦
              let old = h.complete i x (ground (arith, place, earlier)) in
              elim (Bool-cases (run_occ r == run_occ x)) [
                | inr other ↦ rw other old
                | inl same ↦ cc (
                  fresh,
                  old,
                  ap (λ k. get k c.by_occ) ((pair_eq.beq_iff (run_occ r) (run_occ x)).0 same),
                )
              ]
        ]

    numbered_after :
        (i : ℕ) (x : DeductionRecord) → get_elem? with_record.ledger i ≡ some x → x.seq ≡ i + 1
    unfolding with_record appended
    numbered_after i x e = ground (arith, e, get_elem?-snoc c.ledger appended i, h.numbered i x)

    with_record-IsIndexed : IsIndexed with_record
    with_record-IsIndexed = record {
      points = points_after;
      complete = complete_after;
      numbered = numbered_after;
    }

-- AppendDeduction keeps the ledger indexed, whether it appends or refuses.
pub append_deduction-IsIndexed :
    (c : Codebase) (r : DeductionRecord) → IsIndexed c → IsIndexed (append_deduction c r).1
append_deduction-IsIndexed c r h =
    append_cases c r (λ x. IsIndexed x.1) (λ _. h) (λ _ fresh. with_record-IsIndexed c r fresh h)

-- A record stays where it is when another is appended.
pub append_deduction-stable :
    (c : Codebase) (x : DeductionRecord) (i : ℕ) (r : DeductionRecord)
    → get_elem? c.ledger i ≡ some r
    → get_elem? (append_deduction c x).1.ledger i ≡ some r
append_deduction-stable c x i r h =
    append_cases c x (λ y. get_elem? y.1.ledger i ≡ some r) (λ _. h)
      (λ _ fresh.
        unfold with_record in
        ground (arith, h, get_elem?-lt c.ledger i r h, get_elem?-snoc c.ledger (appended c x) i))

-- An occurrence of a run has at most one record, so a committed deduction is never committed again.
pub ledger_once :
    (c : Codebase) (i j : ℕ) (r s : DeductionRecord)
    → IsIndexed c
    → get_elem? c.ledger i ≡ some r
    → get_elem? c.ledger j ≡ some s
    → r.run_id ≡ s.run_id
    → r.occurrence ≡ s.occurrence
    → i ≡ j
ledger_once c i j r s h at_i at_j run occ = cc (h.complete i r at_i, h.complete j s at_j, run, occ)

-- What AppendDeduction answers when it refuses a record, and why.
pub record Refuses (c : Codebase) (r : DeductionRecord) (x : Res DeductionRecord × Codebase)
    : Type 0 where
  pub answer : x ≡ (err plain, c)
  pub reason : (r.run_id ≡ "") ⊎ (is_some (get_deduction c r.run_id r.occurrence) ≡ true)

-- What it does when it appends one.
pub record Appends (c : Codebase) (r : DeductionRecord) (x : Res DeductionRecord × Codebase)
    : Type 0 where
  pub named : r.run_id ≢ ""
  pub was_free : get_deduction c r.run_id r.occurrence ≡ none
  pub answer : x.0 ≡ ok (record r { seq = length c.ledger + 1 })
  pub lookups :
      (run occ : String)
      → get_deduction x.1 run occ ≡ (
          if run_occ r == (run, occ)
          then some (record r { seq = length c.ledger + 1 })
          else get_deduction c run occ)

module _ (c : Codebase) (r : DeductionRecord) (h : IsIndexed c) where
  refuses :
      (r.run_id ≡ "") ⊎ ((i : ℕ) × (get (run_occ r) c.by_occ ≡ some i)) → Refuses c r (err plain, c)
  unfolding get_deduction
  refuses (inl e) = record { answer = refl; reason = inl e }
  refuses (inr (i, e)) =
      let (x, at, key) = h.points (run_occ r) i e in
      record { answer = refl; reason = inr (ground (arith, e, at)) }

  others_kept :
      (run occ : String)
      → run_occ r ≢ (run, occ)
      → get_deduction (with_record c r) run occ ≡ get_deduction c run occ
  unfolding get_deduction with_record appended
  others_kept run occ ne =
      ap (record_at (with_record c r).ledger) read ∙ by_entry (get (run, occ) c.by_occ) refl
    where
      read : get (run, occ) (with_record c r).by_occ ≡ get (run, occ) c.by_occ
      read = elim (Bool-cases (run_occ r == (run, occ))) [
        | inl same ↦ absurd (ne ((pair_eq.beq_iff (run_occ r) (run, occ)).0 same))
        | inr other ↦ get-put (run_occ r) (run, occ) (length c.ledger) c.by_occ ∙ rw other
      ]

      by_entry :
          (mi : Option ℕ)
          → get (run, occ) c.by_occ ≡ mi
          → record_at (with_record c r).ledger mi ≡ record_at c.ledger mi
      by_entry none e = refl
      by_entry (some i) e =
          let (x, at, key) = h.points (run, occ) i e in
          ground (arith, get_elem?-lt c.ledger i x at, get_elem?-snoc c.ledger (appended c r) i)

  appends :
      r.run_id ≢ ""
      → get (run_occ r) c.by_occ ≡ none
      → Appends c r (ok (appended c r), with_record c r)
  unfolding get_deduction with_record appended
  appends named fresh = record {
    named = named;
    was_free = ground (arith, fresh);
    answer = refl;
    lookups = λ run occ. elim (Bool-cases (run_occ r == (run, occ))) [
      | inr other ↦ rw other (
          others_kept run occ (λ same. cc (other, (pair_eq.beq_iff (run_occ r) (run, occ)).1 same)))
      | inl same ↦ rw same (
          ground (
            arith,
            get-put (run_occ r) (run, occ) (length c.ledger) c.by_occ,
            same,
            get_elem?-snoc c.ledger (appended c r) (length c.ledger),
          ))
    ];
  }

  -- Over an indexed ledger, AppendDeduction refuses, changing nothing, a record that names no run
  -- or whose occurrence has a record in the run already, and appends every other one: then it
  -- answers with the record numbered by its place, GetDeduction finds it, and every other lookup
  -- is as it was.
  pub append_deduction_lem : Refuses c r (append_deduction c r) ⊎ Appends c r (append_deduction c r)
  append_deduction_lem =
      append_cases c r (λ x. Refuses c r x ⊎ Appends c r x) (λ why. inl (refuses why))
        (λ named fresh. inr (appends named fresh))
