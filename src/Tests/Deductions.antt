-- ===== src/Tests/Deductions.antt =====
-- Deductions, demand and the ledger on the Goal `Ping`.
use subsea_cable_runtime.Base.{
  ℕ, ◌+◌, ◌≡◌, ◌≢◌, ◌⊎◌, refl, false, [], ◌∷◌, List, get, put, string_eq, pair_eq, sort_by, show_ℕ,
  contains_char, starts_char, str_join,
}
use subsea_cable_runtime.Syntax.{exprs_len, normalize_number_text, arity}
use subsea_cable_runtime.Syntax.Canonical.{write_canon}
use subsea_cable_runtime.Expr.{bind_params}
use subsea_cable_runtime.Carousel.Expand.{eval_args, expand_body}
use subsea_cable_runtime.Codebase.{
  DeductionRecord, new_codebase, append_deduction, resolve_current, goal_node_id,
}
use subsea_cable_runtime.Codebase.Commit.{commit_unit}
use subsea_cable_runtime.Codebase.Ledger.{IsIndexed, new-IsIndexed}
use subsea_cable_runtime.Carousel.{new_carousel, register, is_demanded, deducible, occurrences}
use subsea_cable_runtime.Carousel.Demand.{
  demand, withdraw, demand_accepted, demand_withdrawn_earlier,
}
use subsea_cable_runtime.Carousel.Demand.Effects.{
  demand_effect, withdraw_final, withdraw_effect, Accepts, may_withdraw, Withdraws,
}
use subsea_cable_runtime.Carousel.Deduce.{deduce, by_demand, by_prefetch}
use subsea_cable_runtime.Carousel.Deduce.Atomic.{
  deduce_failure_atomic, Untouched, deduce-Recorded, Recorded, value_barrier,
}
use subsea_cable_runtime.Carousel.Replenish.{open_root, replenish}
use subsea_cable_runtime.Carousel.Calls.{Call, run, opens_root, demands, drains, replenishes}
use subsea_cable_runtime.Carousel.History.{committed_once, ledger_stable}
use subsea_cable_runtime.Base.{get_elem?, some}
use subsea_cable_runtime.Carousel.{Carousel}
use subsea_cable_runtime.Tests.Data.{
  config, root, rooted, routed_goal, source, no_outputs, opened, entry, ping_hash,
}

demand_effect_example :
    (((demand "r" rooted).0 ≢ demand_accepted) × ((demand "r" rooted).1 ≡ rooted))
    ⊎ (((demand "r" rooted).0 ≡ demand_accepted) × Accepts "r" rooted (demand "r" rooted).1)
demand_effect_example = demand_effect "r" rooted

withdraw_final_example :
    (is_demanded (withdraw "r" rooted) "r" ≡ false)
    × (demand "r" (withdraw "r" rooted) ≡ (demand_withdrawn_earlier, withdraw "r" rooted))
unfolding register new_carousel get put deducible
withdraw_final_example = withdraw_final "r" rooted root refl refl refl

withdraw_effect_example :
    ((may_withdraw (get "r" rooted.occs) ≡ false) × (withdraw "r" rooted ≡ rooted))
    ⊎ Withdraws "r" rooted (withdraw "r" rooted)
withdraw_effect_example = withdraw_effect "r" rooted

deduce_failure_atomic_example :
    Untouched "r.1" rooted (deduce config no_outputs routed_goal by_demand rooted).1
deduce_failure_atomic_example =
    deduce_failure_atomic config no_outputs routed_goal by_demand rooted (unfold deduce in refl)

value_barrier_example :
    let r = deduce config no_outputs routed_goal by_prefetch rooted in
    (r.0 ≡ false)
    × (r.1.occs ≡ rooted.occs)
    × (r.1.demanded ≡ rooted.demanded)
    × (r.1.codebase ≡ rooted.codebase)
    × (r.1.window ≡ rooted.window)
    × (r.1.order ≡ rooted.order)
value_barrier_example =
    value_barrier config no_outputs routed_goal by_prefetch rooted (λ e. cc) refl

opened-IsIndexed : IsIndexed opened.codebase
unfolding open_root commit_unit new_codebase new_carousel sort_by write_canon get
opened-IsIndexed = record {
  points = new-IsIndexed.points;
  complete = new-IsIndexed.complete;
  numbered = new-IsIndexed.numbered;
}

deduce-Recorded_example :
    Recorded config root opened (deduce config no_outputs root by_prefetch opened).1
unfolding deduce open_root commit_unit new_codebase new_carousel eval_args resolve_current get
    sort_by write_canon put show_ℕ exprs_len normalize_number_text contains_char starts_char
    bind_params arity expand_body append_deduction
deduce-Recorded_example =
    deduce-Recorded config no_outputs root by_prefetch opened opened-IsIndexed refl

-- The record of the Root's deduction.
abbrev root_record : DeductionRecord
root_record = record entry {
  seq = 1;
  artifact_hash = ping_hash;
  goal_node_id = "(artifact8p18:po/0";
  lineages = "Ping/0" ∷ [];
  cause = "prefetch";
}

abbrev history : List Call
history = demands "r.d" ∷ drains ∷ replenishes no_outputs 3 ∷ []

abbrev place : ℕ
place = 0

committed_once_example : (place ≡ place) × (root_record.seq ≡ place + 1)
unfolding run replenish demand occurrences goal_node_id str_join deduce open_root commit_unit
    new_codebase new_carousel eval_args resolve_current get sort_by write_canon put show_ℕ exprs_len
    normalize_number_text contains_char starts_char bind_params arity expand_body append_deduction
committed_once_example =
    committed_once config opened history place place root_record root_record opened-IsIndexed refl
      refl refl refl

-- A Carousel over a ledger with one record.
abbrev resumed : Carousel
resumed = new_carousel (append_deduction new_codebase entry).1 1

ledger_stable_example :
    get_elem?
      (run config resumed (opens_root source ∷ replenishes no_outputs 3 ∷ [])).codebase.ledger
      place
    ≡ some (record entry { seq = 1 })
unfolding new_carousel new_codebase append_deduction get
ledger_stable_example =
    ledger_stable config resumed (opens_root source ∷ replenishes no_outputs 3 ∷ []) place
      (record entry { seq = 1 }) refl
