-- ===== src/Runtime/Moves/Loops.antt =====
-- The moves of the loops: every call on a run is a sequence of moves.
use subsea_cable_runtime.Base.{
  ℕ, zero, suc, none, ◌≡◌, refl, Bool, not, ◌||◌, String, List, [], ◌∷◌, ℤ, ltb, length, ◌==◌,
  nat_eq, string_eq,
}
use subsea_cable_runtime.Carousel.{Event}
use subsea_cable_runtime.Runtime.State.{Run, Settings, TimelineItem}
use subsea_cable_runtime.Runtime.Act.{when, Act, after, asking}
use subsea_cable_runtime.Runtime.Events.{handle}
use subsea_cable_runtime.Runtime.Demand.{scheduler_demand}
use subsea_cable_runtime.Runtime.Scopes.{settle}
use subsea_cable_runtime.Runtime.Reactor.{
  is_done, loop_bound, no_events, finish_failed, count_step, pop, refill, replenish_then,
  pump_rounds, pump, settle_pass, stabilize_rounds, stabilize, take_item, step_within, step_on,
  step_act, request, set_prefetch, cancel_scope, cancel,
}
use subsea_cable_runtime.Runtime.Moves.{Mode, outer, whole, pops, counts}
use subsea_cable_runtime.Runtime.Moves.Reports.{not-is_some}
use subsea_cable_runtime.Runtime.Moves.Acts.{
  Safe, From, when-From, Evolves-louder, plain, safe_acts, Holds-Safe, Safe-Holds, then-Safe,
  asking-Safe, choose-Safe, when-Safe, skip-Safe, expose-Safe, every_run, asking-From, From-each,
  one, note-Safe, skip-Holds, then-From,
}
use subsea_cable_runtime.Runtime.Moves.Reports.{handle-Safe}
use subsea_cable_runtime.Runtime.Moves.Finishing.{finish-Safe}
use subsea_cable_runtime.Runtime.Moves.Demanding.{demand_then-Holds, scheduler_demand-Holds}
use subsea_cable_runtime.Runtime.Moves.Starting.{IsGated}
use subsea_cable_runtime.Runtime.Moves.Delivering.{settling, deliver-Safe}
use subsea_cable_runtime.Runtime.Moves.Dispatching.{dispatch-Safe}

module _ {H S : Type 0} (set : Settings H S) where
  pub finish_failed-Safe : {m : Mode} (kind : String) → Safe set m (finish_failed kind)
  unfolding finish_failed
  finish_failed-Safe kind = finish-Safe _ _ _

  count_step-From : {r : Run H S} → r.result ≡ none → From set whole r count_step
  unfolding count_step after
  count_step-From e = record { moves = one (counts refl e refl) }

  -- Outer moves are moves of a whole call.
  pub outer-whole : {a : Act H S} → Safe set outer a → Safe set whole a
  outer-whole h = record {
    moves = λ r. Evolves-louder (λ q. refl) (λ q. refl) (λ q. cc q) (h.moves r);
  }

  pop-From :
      {r : Run H S} (it : TimelineItem) (rest : List TimelineItem)
      → r.tl ≡ it ∷ rest
      → From set outer r (pop it rest)
  unfolding pop after
  pop-From it rest e = record { moves = one (pops it rest refl e refl) }

  refill-Safe : Safe set outer (refill set)
  unfolding refill
  refill-Safe = search (asking-Safe, expose-Safe, refl)

  handled-Safe : (evs : List Event) → Safe set outer (handle set (settle set) evs)
  handled-Safe evs = handle-Safe refl (settling set) evs

  module _ (gated : IsGated set.port) where
    take_item-From :
        {r : Run H S} (tl : List TimelineItem) → r.tl ≡ tl → From set outer r (take_item set tl)
    unfolding take_item
    take_item-From [] e = From-each (then-Safe (note-Safe _ _) (finish_failed-Safe _))
    take_item-From (it ∷ rest) e =
        then-From (pop-From it rest e) (deliver-Safe set it.scope it.kind)

    take_next-Safe : Safe set outer (asking (λ r. r.tl) (take_item set))
    take_next-Safe = search (every_run, asking-From, take_item-From)

  replenish_then-Safe :
      {k : List Event → Act H S}
      → ((evs : List Event) → Safe set outer (k evs))
      → Safe set outer (replenish_then set k)
  unfolding replenish_then
  replenish_then-Safe hk = search (safe_acts, refill-Safe, handled-Safe, hk)

  scheduler_demand-Safe :
      {k : Bool → Act H S}
      → ((b : Bool) → Safe set outer (k b))
      → Safe set outer (scheduler_demand set k)
  scheduler_demand-Safe hk =
      Holds-Safe (scheduler_demand-Holds {g = plain outer} refl (λ b. Safe-Holds (hk b)))

  pump_rounds-Safe : (n : ℕ) → Safe set outer (pump_rounds set n)
  unfolding pump_rounds
  pump_rounds-Safe zero = skip-Safe
  pump_rounds-Safe (suc n) = asking-Safe is_done (λ done. when-Safe (not done) (
      scheduler_demand-Safe (λ demanded.
        replenish_then-Safe
          (λ evs. when-Safe (not (no_events evs) || demanded) (pump_rounds-Safe n)))))

  pump-Safe : Safe set outer (pump set)
  unfolding pump
  pump-Safe = pump_rounds-Safe loop_bound

  module _ (gated : IsGated set.port) where
    settle_pass-Safe :
        (before : ℕ) {again : Act H S}
        → Safe set outer again
        → Safe set outer (settle_pass set before again)
    unfolding settle_pass
    settle_pass-Safe before ha = asking-Safe is_done (λ done. when-Safe (not done) (
        then-Safe (dispatch-Safe set gated)
          (asking-Safe (λ r. length r.trace == before) (λ same. when-Safe (not same) ha))))

    stabilize_rounds-Safe : (n : ℕ) → Safe set outer (stabilize_rounds set n)
    unfolding stabilize_rounds
    stabilize_rounds-Safe zero = skip-Safe
    stabilize_rounds-Safe (suc n) = asking-Safe is_done (λ done. when-Safe (not done) (
        asking-Safe (λ r. length r.trace)
          (λ before. then-Safe pump-Safe (settle_pass-Safe before (stabilize_rounds-Safe n)))))

    pub stabilize-Safe : Safe set outer (stabilize set)
    unfolding stabilize
    stabilize-Safe = stabilize_rounds-Safe loop_bound

    pub step_within-Safe : Safe set outer (step_within set)
    unfolding step_within
    step_within-Safe =
        then-Safe stabilize-Safe
          (asking-Safe is_done (λ done. when-Safe (not done) (take_next-Safe gated)))

    step_on-From : {r : Run H S} → r.result ≡ none → From set whole r (step_on set)
    unfolding step_on
    step_on-From e = then-From (count_step-From e) (
        outer-whole (
          asking-Safe (λ r. ltb set.max_steps r.steps)
            (λ over. choose-Safe over (finish_failed-Safe "StepBudgetExceeded") step_within-Safe)))

    pub step_act-Safe : Safe set whole (step_act set)
    unfolding step_act is_done
    step_act-Safe = every_run (λ r.
        asking-From is_done (λ done. when (not done) (step_on set))
          (when-From (λ e. step_on-From (not-is_some r.result e))))

  pub request-Safe : (id : String) → Safe set outer (request set id)
  unfolding request
  request-Safe id = Holds-Safe (demand_then-Holds {g = plain outer} refl id (λ res. skip-Holds))

  pub set_prefetch-Safe : (n : ℤ) → Safe set outer (set_prefetch set n)
  unfolding set_prefetch
  set_prefetch-Safe n = search safe_acts

  pub cancel_scope-Safe : (id : String) → Safe set outer (cancel_scope set id)
  unfolding cancel_scope
  cancel_scope-Safe id = search (safe_acts, (settling set).settles)

  pub cancel-Safe : Safe set outer (cancel set)
  unfolding cancel
  cancel-Safe = search (safe_acts, (settling set).settles)
