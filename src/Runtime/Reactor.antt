-- ===== src/Runtime/Reactor.antt =====
-- The loops of runtime/runtime.go: pump, stabilize, Step and RunToCompletion, and the calls that a
-- user of a run makes: Demand, SetPrefetch, CancelScope, Cancel and Advance. The bounds of 10000 are
-- the source's own. RunToCompletion has no bound in the source; here it has fuel.
use subsea_cable_runtime.Base.{
  ℕ, zero, suc, Bool, true, false, not, ◌||◌, Option, none, some, String, List, [], ◌∷◌, ◌==◌,
  nat_eq, string_eq, length, ltb, ℤ, get, is_some,
}
use subsea_cable_runtime.Diag.{policy, new}
use subsea_cable_runtime.Value.{Output, no_output}
use subsea_cable_runtime.Carousel.{Event}
use subsea_cable_runtime.Carousel.Calls
use subsea_cable_runtime.Carousel.Replenish.{replenish}
use subsea_cable_runtime.Host
use subsea_cable_runtime.Runtime.Policy
use subsea_cable_runtime.Runtime.State.{Run, Settings, TimelineItem, moved_on}
use subsea_cable_runtime.Runtime.Act.{
  act, after, Act, skip, ◌▷◌, asking, when, choose, note, tell, finish,
}
use subsea_cable_runtime.Runtime.Events.{handle}
use subsea_cable_runtime.Runtime.Scopes.{settle}
use subsea_cable_runtime.Runtime.Demand.{scheduler_demand, demand_then}
use subsea_cable_runtime.Runtime.Dispatch.{dispatch}
use subsea_cable_runtime.Runtime.Deliver.{deliver}

abbrev pub no_events : List Event → Bool
no_events [] = true
no_events (e ∷ es) = false

abbrev pub loop_bound : ℕ
loop_bound = 10000

module _ {H S : Type 0} where
  -- Output: what the Carousel reads values from.
  unfoldable pub value_of : Run H S → String → Option Output
  value_of r id = get id r.values

  unfoldable pub is_done : Run H S → Bool
  is_done r = is_some r.result

  -- finish for a run that can go no further.
  unfoldable pub finish_failed : String → Act H S
  unfolding finish
  finish_failed kind = finish Host.failed no_output (some (new kind policy none))

  unfoldable pub count_step : Act H S
  count_step = act (λ r. record r { steps = suc r.steps })

  -- heap.Pop; the clock moves on to the item.
  unfoldable pub pop : TimelineItem → List TimelineItem → Act H S
  pop it rest = act (λ r. record r { tl = rest; now = moved_on r.now it.at })

  module _ (set : Settings H S) where
    unfoldable pub refill : Act H S
    unfolding value_of asking tell
    refill = asking value_of (λ values. tell set.car_cfg (Calls.replenishes values set.rounds))

    -- Replenish, and handle; `k` goes on with the events.
    unfoldable pub replenish_then : (List Event → Act H S) → Act H S
    unfolding asking refill handle settle ◌▷◌ replenish value_of
    replenish_then k =
        asking (λ r. (replenish set.car_cfg (value_of r) set.rounds r.car).0)
          (λ evs. refill ▷ handle set (settle set) evs ▷ k evs)

    unfoldable pub pump_rounds : ℕ → Act H S
    unfolding asking is_done when scheduler_demand replenish_then ◌▷◌
    pump_rounds zero = skip
    pump_rounds (suc n) = asking is_done (λ done. when (not done) (
        scheduler_demand set (λ demanded.
          replenish_then (λ evs. when (not (no_events evs) || demanded) (pump_rounds n)))))

    -- pump
    unfoldable pub pump : Act H S
    unfolding pump_rounds
    pump = pump_rounds loop_bound

    -- One turn of stabilize from the dispatch on; `again` is the rest of the loop.
    unfoldable pub settle_pass : ℕ → Act H S → Act H S
    unfolding asking is_done when dispatch ◌▷◌
    settle_pass before again = asking is_done (λ done.
        when (not done)
          (dispatch set ▷ asking (λ r. length r.trace == before) (λ same. when (not same) again)))

    unfoldable pub stabilize_rounds : ℕ → Act H S
    unfolding asking is_done when pump settle_pass ◌▷◌
    stabilize_rounds zero = skip
    stabilize_rounds (suc n) = asking is_done (λ done.
        when (not done)
          (asking (λ r. length r.trace) (λ before. pump ▷ settle_pass before (stabilize_rounds n))))

    -- stabilize, and Advance
    unfoldable pub stabilize : Act H S
    unfolding stabilize_rounds
    stabilize = stabilize_rounds loop_bound

    unfoldable pub take_item : List TimelineItem → Act H S
    unfolding pop deliver note finish_failed ◌▷◌
    take_item [] = note "RunStuck" "" ▷ finish_failed "RunStuck"
    take_item (it ∷ rest) = pop it rest ▷ deliver set it.scope it.kind

    -- Step, within the budget.
    unfoldable pub step_within : Act H S
    unfolding asking is_done when stabilize take_item ◌▷◌
    step_within =
        stabilize ▷ asking is_done (λ done. when (not done) (asking (λ r. r.tl) take_item))

    -- Step, of a run without a result.
    unfoldable pub step_on : Act H S
    unfolding asking choose count_step finish_failed step_within ◌▷◌
    step_on =
        count_step
        ▷ asking (λ r. ltb set.max_steps r.steps)
            (λ over. choose over (finish_failed "StepBudgetExceeded") step_within)

    unfoldable pub step_act : Act H S
    unfolding asking is_done when step_on
    step_act = asking is_done (λ done. when (not done) step_on)

    -- Step: each of its returns says whether the run has no result yet.
    unfoldable pub step : Run H S → Bool × Run H S
    unfolding step_act is_done after
    step r = (not (is_done (after step_act r)), after step_act r)

    unfoldable pub step_while : (Run H S → Run H S) → Bool × Run H S → Run H S
    step_while next (true, r) = next r
    step_while next (false, r) = r

    -- RunToCompletion
    unfoldable pub run_to_completion : ℕ → Run H S → Run H S
    unfolding step step_while
    run_to_completion zero r = r
    run_to_completion (suc f) r = step_while (run_to_completion f) (step r)

    -- Demand, without what it returns, and SetPrefetch
    unfoldable pub request : String → Act H S
    unfolding demand_then
    request id = demand_then set id (λ res. skip)

    unfoldable pub set_prefetch : ℤ → Act H S
    unfolding tell
    set_prefetch n = tell set.car_cfg (Calls.sets_prefetch n)

    unfoldable pub cancel_scope : String → Act H S
    unfolding asking is_done when settle
    cancel_scope id = asking is_done (λ done.
        when (not done)
          (settle set id Policy.cancelled no_output (some (new "ScopeCancelled" policy none))))

    unfoldable pub cancel : Act H S
    unfolding asking is_done when settle
    cancel = asking is_done (λ done.
        when (not done)
          (settle set "r" Policy.cancelled no_output (some (new "RunCancelled" policy none))))
