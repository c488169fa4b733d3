-- ===== src/Carousel/History.antt =====
-- What holds of the ledger after any history of calls on a Carousel.
use subsea_cable_runtime.Base.{ℕ, ◌+◌, ◌≡◌, ap, ◌∙◌, String, List, [], ◌∷◌, get_elem?, some, arith}
use subsea_cable_runtime.Codebase.{Codebase, append_deduction, DeductionRecord}
use subsea_cable_runtime.Codebase.Ledger.{
  IsIndexed, ledger_once, append_deduction-IsIndexed, append_deduction-stable,
}
use subsea_cable_runtime.Carousel.{Carousel, Config, ValueSource, emit, drain}
use subsea_cable_runtime.Carousel.Touchdown.{consume_touchdown, discard_touchdown}
use subsea_cable_runtime.Carousel.Demand.{demand, withdraw, set_prefetch}
use subsea_cable_runtime.Carousel.Deduce.{report_blocked}
use subsea_cable_runtime.Carousel.Deduce.Atomic.{deduce-keeps, register-codebase}
use subsea_cable_runtime.Carousel.Replenish.{open_root_cases}
use subsea_cable_runtime.Carousel.Replenish.Rounds.{Keeps, replenish-keeps}
use subsea_cable_runtime.Carousel.Calls.{
  Call, opens_root, demands, withdraws, sets_prefetch, drains, consumes, discards, replenishes,
  step, run,
}

module _ (P : Codebase → Type 0)
    (grows : (b : Codebase) (r : DeductionRecord) → P b → P (append_deduction b r).1)
    (cfg : Config) where
  abbrev LedgerOk : Carousel → Type 0
  LedgerOk c = P c.codebase

  keeps-LedgerOk : (values : ValueSource) → Keeps cfg values LedgerOk
  unfolding emit report_blocked
  keeps-LedgerOk values = record {
    deduces = λ o cause c h. deduce-keeps cfg P values o cause c grows h;
    reports = λ id reason c h. rw (same id reason c) h;
    emits = λ e c h. h;
    notes = λ key c h. h;
    drains = λ c h. h;
    unfinishes = λ c h. h;
  }
    where
      same :
          (id reason : String) (c : Carousel) → (report_blocked id reason c).codebase ≡ c.codebase
      same id reason c = ground arith

  demand-codebase : (id : String) (c : Carousel) → (demand id c).1.codebase ≡ c.codebase
  unfolding demand
  demand-codebase id c = ground arith

  withdraw-codebase : (id : String) (c : Carousel) → (withdraw id c).codebase ≡ c.codebase
  unfolding withdraw
  withdraw-codebase id c = ground arith

  consume-codebase :
      (occ i a : String) (c : Carousel) → (consume_touchdown cfg occ i a c).1.codebase ≡ c.codebase
  unfolding consume_touchdown
  consume-codebase occ i a c = ground arith

  discard-codebase :
      (occ r : String) (c : Carousel) → (discard_touchdown cfg occ r c).1.codebase ≡ c.codebase
  unfolding discard_touchdown
  discard-codebase occ r c = ground arith

  step-LedgerOk : (c : Carousel) (x : Call) → LedgerOk c → LedgerOk (step cfg c x)
  unfolding step set_prefetch drain
  step-LedgerOk c (opens_root u) h =
      open_root_cases LedgerOk cfg u c h (λ o. rw (register-codebase cfg o c) h)
  step-LedgerOk c (demands id) h = rw (demand-codebase id c) h
  step-LedgerOk c (withdraws id) h = rw (withdraw-codebase id c) h
  step-LedgerOk c (sets_prefetch n) h = h
  step-LedgerOk c drains h = h
  step-LedgerOk c (consumes occ i a) h = rw (consume-codebase occ i a c) h
  step-LedgerOk c (discards occ r) h = rw (discard-codebase occ r c) h
  step-LedgerOk c (replenishes values f) h =
      replenish-keeps cfg values LedgerOk (keeps-LedgerOk values) f c h

  -- What AppendDeduction keeps of the Codebase, every history of calls keeps.
  run-keeps : (c : Carousel) (xs : List Call) → LedgerOk c → LedgerOk (run cfg c xs)
  unfolding run
  run-keeps c [] h = h
  run-keeps c (x ∷ xs) h = run-keeps (step cfg c x) xs (step-LedgerOk c x h)

module _ (cfg : Config) where
  -- After any history of calls on a Carousel over an indexed ledger, any two records of the
  -- ledger that name the same run and the same occurrence are one record: they stand at the same
  -- place, and that record is numbered by its place, from 1.
  pub committed_once :
      (c : Carousel) (xs : List Call) (i j : ℕ) (r s : DeductionRecord)
      → IsIndexed c.codebase
      → get_elem? (run cfg c xs).codebase.ledger i ≡ some r
      → get_elem? (run cfg c xs).codebase.ledger j ≡ some s
      → r.run_id ≡ s.run_id
      → r.occurrence ≡ s.occurrence
      → (i ≡ j) × (r.seq ≡ j + 1)
  committed_once c xs i j r s h at_i at_j run' occ =
      let ok' = run-keeps IsIndexed append_deduction-IsIndexed cfg c xs h in
      let place = ledger_once (run cfg c xs).codebase i j r s ok' at_i at_j run' occ in
      (place, ok'.numbered i r at_i ∙ ap (λ n. n + 1) place)

  -- A record of the ledger stays at its place, unchanged, through any history of calls on a
  -- Carousel.
  pub ledger_stable :
      (c : Carousel) (xs : List Call) (i : ℕ) (r : DeductionRecord)
      → get_elem? c.codebase.ledger i ≡ some r
      → get_elem? (run cfg c xs).codebase.ledger i ≡ some r
  ledger_stable c xs i r h =
      run-keeps (λ b. get_elem? b.ledger i ≡ some r) (λ b x at. append_deduction-stable b x i r at)
        cfg c xs h
