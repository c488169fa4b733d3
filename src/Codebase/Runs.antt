-- ===== src/Codebase/Runs.antt =====
-- RegisterRun of codebase/codebase.go: run IDs are handed out once.
use text.Mathlib.TextLemmas.{append_cancel_left}
use subsea_cable_runtime.Base.{
  ℕ, zero, suc, ◌<◌, ◌≤◌, ◌≡◌, ◌≢◌, ◌⊎◌, inl, inr, refl, sym, ap, ◌∙◌, Bool, true, false, none,
  some, String, ◌==◌, string_eq, if◌then◌else◌, Map, get, del, get-put, get-del, is_some, arith,
  length, length-del_lt, Bool-cases, Option-cases, show_ℕ-inj, show_ℕ,
}
use subsea_cable_runtime.Diag.{Res, ok, err, plain}
use subsea_cable_runtime.Codebase.{Codebase, register_run, free_seq, reserve, run_name}

run_name-inj : (m n : ℕ) → run_name m ≡ run_name n → m ≡ n
unfolding run_name
run_name-inj m n e = show_ℕ-inj m n (append_cancel_left "run-" (show_ℕ m) (show_ℕ n) e)

other_name : (m n : ℕ) → m < n → (run_name m == run_name n) ≡ false
other_name m n lt = elim (Bool-cases (run_name m == run_name n)) [
  | inr other ↦ other
  | inl same ↦ absurd (omega (arith, lt, run_name-inj m n ((string_eq.beq_iff _ _).0 same)))
]

-- The search does not look at names that were passed.
free_seq-del :
    (f : ℕ) (runs : Map String Bool) (seq old : ℕ)
    → old ≤ seq
    → free_seq f (del (run_name old) runs) seq ≡ free_seq f runs seq
unfolding free_seq
free_seq-del zero runs seq old h = refl
free_seq-del (suc f) runs seq old h = rw (free_seq-del f runs (suc seq) old (omega (arith, h))) (
    rw (get-del (run_name old) (run_name (suc seq)) runs)
      (rw (other_name old (suc seq) (omega (arith, h))) refl))

free_seq-later : (f : ℕ) (runs : Map String Bool) (seq : ℕ) → seq ≤ free_seq f runs seq
unfolding free_seq
free_seq-later zero runs seq = omega arith
free_seq-later (suc f) runs seq = ground (arith, free_seq-later f runs (suc seq))

free_seq-beyond : (f : ℕ) (runs : Map String Bool) (seq : ℕ) → 0 < f → seq < free_seq f runs seq
unfolding free_seq
free_seq-beyond zero runs seq h = omega (arith, h)
free_seq-beyond (suc f) runs seq h = ground (arith, free_seq-later f runs (suc seq))

past_taken :
    (f : ℕ) (runs : Map String Bool) (seq : ℕ)
    → 0 < f
    → get (run_name (free_seq f (del (run_name seq) runs) seq)) (del (run_name seq) runs) ≡ none
    → get (run_name (free_seq f runs seq)) runs ≡ none
past_taken f runs seq h free =
    sym read ∙ ap (λ n. get (run_name n) (del (run_name seq) runs)) (sym same) ∙ free
  where
    same : free_seq f (del (run_name seq) runs) seq ≡ free_seq f runs seq
    same = free_seq-del f runs seq seq (omega arith)

    read :
        get (run_name (free_seq f runs seq)) (del (run_name seq) runs)
        ≡ get (run_name (free_seq f runs seq)) runs
    read =
        get-del (run_name seq) (run_name (free_seq f runs seq)) runs
        ∙ rw (other_name seq (free_seq f runs seq) (free_seq-beyond f runs seq h))

-- Of more names in a row than there are runs, one is free, and the search stops at it.
free_seq-free :
    (f : ℕ) (runs : Map String Bool) (seq : ℕ)
    → length runs < f
    → get (run_name (free_seq f runs seq)) runs ≡ none
unfolding free_seq
free_seq-free zero runs seq h = absurd (omega (arith, h))
free_seq-free (suc f) runs seq h = elim (Bool-cases (is_some (get (run_name (suc seq)) runs))) [
  | inr free ↦ rw free (ground (arith, free))
  | inl taken ↦
      let less = length-del_lt (run_name (suc seq)) runs taken in
      rw taken (
        past_taken f runs (suc seq) (omega (arith, h, less))
          (free_seq-free f (del (run_name (suc seq)) runs) (suc seq) (omega (arith, h, less))))
]

-- What it takes to hand out a run ID: it was free, it is taken now, and no other ID changed.
pub record Reserves (c : Codebase) (r : Res String × Codebase) : Type 0 where
  pub id : String
  pub answer : r.0 ≡ ok id
  pub was_free : get id c.runs ≡ none
  pub taken : (j : String) → get j r.1.runs ≡ (if id == j then some true else get j c.runs)
  pub same_ledger : r.1.ledger ≡ c.ledger

reserve-Reserves :
    (c : Codebase) (n : ℕ) (id : String)
    → get id c.runs ≡ none
    → Reserves c (reserve (record c { run_seq = n }) id)
unfolding reserve
reserve-Reserves c n id free = rw free (record {
  id = id;
  answer = refl;
  was_free = free;
  taken = λ j. get-put id j true c.runs;
  same_ledger = refl;
})

module _ (c : Codebase) where
  -- RegisterRun without an ID always hands one out: it was free, it is taken afterwards, no other
  -- run ID changes, and the ledger is as it was.
  pub register_run_generates : Reserves c (register_run c "")
  unfolding register_run
  register_run_generates =
      reserve-Reserves c (free_seq (suc (length c.runs)) c.runs c.run_seq) _
        (free_seq-free (suc (length c.runs)) c.runs c.run_seq (omega arith))

  by_reserve : (id : String) → id ≢ "" → register_run c id ≡ reserve c id
  unfolding register_run
  by_reserve id named = elim (Bool-cases (id == "")) [
    | inl empty ↦ absurd (named ((string_eq.beq_iff id "").0 empty))
    | inr other ↦ rw other
  ]

  reserve-refuses :
      (id : String) (b : Bool) → get id c.runs ≡ some b → reserve c id ≡ (err plain, c)
  unfolding reserve
  reserve-refuses id b taken = rw taken

  reserve-named : (id : String) → get id c.runs ≡ none → (reserve c id).0 ≡ ok id
  unfolding reserve
  reserve-named id free = rw free

  -- RegisterRun of an ID that is not empty hands that ID out, if it is free, and changes no
  -- other; if it is taken, it refuses and changes nothing.
  pub register_run_named :
      (id : String)
      → id ≢ ""
      → (Reserves c (register_run c id) × ((register_run c id).0 ≡ ok id))
        ⊎ ((is_some (get id c.runs) ≡ true) × (register_run c id ≡ (err plain, c)))
  register_run_named id named = elim (Option-cases (get id c.runs)) [
    | inl free ↦
        inl (rw (by_reserve id named) (reserve-Reserves c c.run_seq id free, reserve-named id free))
    | inr (b, taken) ↦ inr (ap is_some taken, by_reserve id named ∙ reserve-refuses id b taken)
  ]
