-- ===== src/Carousel/Deduce/Cases.antt =====
-- The ways a deduction ends, as one rule for the proofs about it.
use subsea_cable_runtime.Base.{◌≡◌, refl, Bool, true, false, String, List, ◌<>◌}
use subsea_cable_runtime.Diag.{Err, Res, ok, err}
use subsea_cable_runtime.Value.{Value}
use subsea_cable_runtime.Codebase.{Codebase, DeductionRecord, append_deduction}
use subsea_cable_runtime.Carousel.{Carousel, Config, Occurrence, ValueSource}
use subsea_cable_runtime.Carousel.Deduce.{
  Cause, Reduction, Arguments, arguments, missing, refused, deduce, with_arguments, arguments_of,
  commit, commit_appended, make_record, expose, fail, report_blocked, reduce,
}

module _ {ℓ} (P : Bool × Carousel → Type ℓ) (cfg : Config) (o : Occurrence) (cause : Cause)
    (c : Carousel) where
  -- What has to be shown of the three ways.
  module _ (blocked : (occ : String) → P (false, report_blocked o.id ("pendingValue:" <> occ) c))
      (failed : (e : Err) → P (false, fail o cause e c))
      (committed : (vs : List Value) (r : Reduction) (rec : DeductionRecord) (base : Codebase)
        → append_deduction c.codebase (make_record cfg o cause vs r) ≡ (ok rec, base)
        → P (true, expose cfg o cause r rec (record c { codebase = base }))) where
    appended :
        (vs : List Value) (r : Reduction) (a : Res DeductionRecord × Codebase)
        → append_deduction c.codebase (make_record cfg o cause vs r) ≡ a
        → P (commit_appended cfg o cause r c a)
    unfolding commit_appended
    appended vs r (err e, base) q = failed e
    appended vs r (ok rec, base) q = committed vs r rec base q

    reduced : (vs : List Value) (r : Res Reduction) → P (commit cfg o cause vs c r)
    unfolding commit
    reduced vs (err e) = failed e
    reduced vs (ok r) = appended vs r _ refl

    argued : (a : Arguments) → P (with_arguments cfg o cause c a)
    unfolding with_arguments
    argued (missing occ) = blocked occ
    argued (refused e) = failed e
    argued (arguments vs) = reduced vs (reduce cfg c o vs o.kind)

    pub deduce_cases : (values : ValueSource) → P (deduce cfg values o cause c)
    unfolding deduce
    deduce_cases values = argued (arguments_of cfg values o)
