-- ===== src/Carousel/Window/Deductions.antt =====
-- Deductions, demand and whole histories keep the window consistent.
use subsea_cable_runtime.Base.{refl, String, List, [], ◌∷◌, arith}
use subsea_cable_runtime.Diag.{Err}
use subsea_cable_runtime.Codebase.{DeductionRecord}
use subsea_cable_runtime.Carousel.{Carousel, Config, Occurrence, ValueSource, emit, register, drain}
use subsea_cable_runtime.Carousel.Demand.{demand, withdraw, set_prefetch}
use subsea_cable_runtime.Carousel.Deduce.{
  Cause, by_demand, by_prefetch, Reduction, deduce, fail, report_blocked, expose, mark_committed,
  register_all, over_target,
}
use subsea_cable_runtime.Carousel.Deduce.Cases.{deduce_cases}
use subsea_cable_runtime.Carousel.Replenish.{open_root_cases}
use subsea_cable_runtime.Carousel.Replenish.Rounds.{Keeps, replenish-keeps}
use subsea_cable_runtime.Carousel.Calls.{
  Call, opens_root, demands, withdraws, sets_prefetch, drains, consumes, discards, replenishes,
  step, run,
}
use subsea_cable_runtime.Carousel.Window.{IsConsistent, same-IsConsistent, register-IsConsistent}
use subsea_cable_runtime.Carousel.Window.Acks.{
  consume_touchdown-IsConsistent, discard_touchdown-IsConsistent,
}

report_blocked-IsConsistent :
    (id reason : String) (c : Carousel) → IsConsistent c → IsConsistent (report_blocked id reason c)
unfolding report_blocked
report_blocked-IsConsistent id reason c h = same-IsConsistent c _ (ground arith) (ground arith) h

fail-IsConsistent :
    (o : Occurrence) (cause : Cause) (e : Err) (c : Carousel)
    → IsConsistent c
    → IsConsistent (fail o cause e c)
unfolding fail
fail-IsConsistent o cause e c h = same-IsConsistent c _ refl refl h

module _ (cfg : Config) where
  register_all-IsConsistent :
      (os : List Occurrence) (c : Carousel) → IsConsistent c → IsConsistent (register_all cfg os c)
  unfolding register_all
  register_all-IsConsistent [] c h = h
  register_all-IsConsistent (o ∷ os) c h =
      register_all-IsConsistent os (register cfg o c) (register-IsConsistent cfg o c h)

  over_target-IsConsistent :
      (cause : Cause) (id : String) (os : List Occurrence) (c : Carousel)
      → IsConsistent c
      → IsConsistent (over_target cfg cause id os c)
  unfolding over_target
  over_target-IsConsistent by_prefetch id os c h = h
  over_target-IsConsistent by_demand id os c h =
      same-IsConsistent c _ (ground arith) (ground arith) h

  expose-IsConsistent :
      (o : Occurrence) (cause : Cause) (r : Reduction) (rec : DeductionRecord) (c : Carousel)
      → IsConsistent c
      → IsConsistent (expose cfg o cause r rec c)
  unfolding expose mark_committed
  expose-IsConsistent o cause r rec c h = over_target-IsConsistent cause o.id _ _ (
      register_all-IsConsistent (r.staged.0 ∷ r.staged.1) (mark_committed cfg o cause r rec c)
        (same-IsConsistent c _ (ground arith) (ground arith) h))

  deduce-IsConsistent :
      (values : ValueSource) (o : Occurrence) (cause : Cause) (c : Carousel)
      → IsConsistent c
      → IsConsistent (deduce cfg values o cause c).1
  deduce-IsConsistent values o cause c h =
      deduce_cases (λ r. IsConsistent r.1) cfg o cause c
        (λ occ. report_blocked-IsConsistent o.id _ c h) (λ e. fail-IsConsistent o cause e c h)
        (λ vs r rec base q.
          expose-IsConsistent o cause r rec (record c { codebase = base })
            (same-IsConsistent c _ refl refl h))
        values

  keeps-IsConsistent : (values : ValueSource) → Keeps cfg values IsConsistent
  unfolding emit
  keeps-IsConsistent values = record {
    deduces = λ o cause c h. deduce-IsConsistent values o cause c h;
    reports = λ id reason c h. report_blocked-IsConsistent id reason c h;
    emits = λ e c h. same-IsConsistent c _ refl refl h;
    notes = λ key c h. same-IsConsistent c _ refl refl h;
    drains = λ c h. same-IsConsistent c _ refl refl h;
    unfinishes = λ c h. same-IsConsistent c _ refl refl h;
  }

  -- Every call on the Carousel keeps the window consistent.
  pub step-IsConsistent : (c : Carousel) (x : Call) → IsConsistent c → IsConsistent (step cfg c x)
  unfolding step demand withdraw set_prefetch drain
  step-IsConsistent c (opens_root u) h =
      open_root_cases IsConsistent cfg u c h (λ o. register-IsConsistent cfg o c h)
  step-IsConsistent c (demands id) h = same-IsConsistent c _ (ground arith) (ground arith) h
  step-IsConsistent c (withdraws id) h = same-IsConsistent c _ (ground arith) (ground arith) h
  step-IsConsistent c (sets_prefetch n) h = same-IsConsistent c _ refl refl h
  step-IsConsistent c drains h = same-IsConsistent c _ refl refl h
  step-IsConsistent c (consumes occ i a) h = consume_touchdown-IsConsistent cfg occ i a c h
  step-IsConsistent c (discards occ reason) h = discard_touchdown-IsConsistent cfg occ reason c h
  step-IsConsistent c (replenishes values f) h =
      replenish-keeps cfg values IsConsistent (keeps-IsConsistent values) f c h

  -- Any history of calls keeps the window consistent: it holds exactly the Touchdowns that were
  -- published and neither consumed nor discarded, each once.
  pub run-IsConsistent :
      (c : Carousel) (xs : List Call) → IsConsistent c → IsConsistent (run cfg c xs)
  unfolding run
  run-IsConsistent c [] h = h
  run-IsConsistent c (x ∷ xs) h = run-IsConsistent (step cfg c x) xs (step-IsConsistent c x h)
