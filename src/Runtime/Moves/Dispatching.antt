-- ===== src/Runtime/Moves/Dispatching.antt =====
-- The moves of dispatch.
use subsea_cable_runtime.Base.{
  ℕ, zero, suc, ◌≡◌, refl, true, false, not, ◌||◌, ◌&&◌, ◌==◌, nat_eq, Option, none, some, String,
  List, [], ◌∷◌, length, leb, arith, is_some, ℤ, pos, negsuc,
}
use subsea_cable_runtime.Carousel.{Occurrence}
use subsea_cable_runtime.Runtime.Policy.{before_attempt}
use subsea_cable_runtime.Runtime.State.{Run, Scope, Settings, backoff, is_later, due}
use subsea_cable_runtime.Runtime.Act.{Act, ◌▷◌, asking, choose, when}
use subsea_cable_runtime.Runtime.Demand.{is_empty}
use subsea_cable_runtime.Runtime.Launch.{start}
use subsea_cable_runtime.Runtime.Dispatch.{
  wait, mark_eligible, attempt_leaf, withhold_for, ask_hook, ready_leaf, dispatch_leaf,
  dispatch_each, dispatch,
}
use subsea_cable_runtime.Runtime.Moves.{Mode, outer}
use subsea_cable_runtime.Runtime.Moves.Acts.{
  Safe, From, Holds, safe_acts, mode-Holds, Holds-then, then-Holds, asking-Holds, choose-Holds,
  with_scope-Holds, Holds-From, then-Safe, asking-Safe, every_run, asking-From, choose-From,
  From-each, when-Safe, skip-Safe, with_scope-From, with_occurrence-From, edit-Safe, note-Safe,
  push-Safe,
}
use subsea_cable_runtime.Runtime.Moves.Policies.{consult-Holds}
use subsea_cable_runtime.Runtime.Moves.Settling.{settle-IsSettling}
use subsea_cable_runtime.Runtime.Moves.Starting.{IsGated, place_regime, time_regime, start-Holds}

module _ {H S : Type 0} (set : Settings H S) where
  wait-Safe :
      {m : Mode} (id : String) (s : Scope S) (reasons : List String)
      → Safe set m (wait set id s reasons)
  unfolding wait
  wait-Safe id s reasons = search safe_acts

  mark_eligible-Safe : {m : Mode} (id : String) (s : Scope S) → Safe set m (mark_eligible set id s)
  unfolding mark_eligible
  mark_eligible-Safe id s = search safe_acts

  module _ (gated : IsGated set.port) {next : Act H S} (hn : Safe set outer next) where
    -- The start of an attempt, and the rest of the loop unless the run has finished.
    start_next-Holds :
        (s : Scope S) (now : ℕ) (o : Occurrence)
        → Holds set
            (place_regime now)
            (start set s o ▷ asking (λ r. is_some r.result) (λ done. when (not done) next))
    start_next-Holds s now o =
        Holds-then (start-Holds set gated s now o)
          (asking-Safe (λ r. is_some r.result) (λ done. when-Safe (not done) hn))

    attempt_leaf-Holds :
        (now : ℕ) (o : Occurrence) → Holds set (place_regime now) (attempt_leaf set o next)
    unfolding attempt_leaf
    attempt_leaf-Holds now o = with_scope-Holds o.id (λ s.
        consult-Holds (settle-IsSettling set refl) o.id (before_attempt (suc s.attempts))
          (λ settled. with_scope-Holds o.id (λ s'.
            asking-Holds (λ r. r.now)
              (λ t.
                choose-Holds (settled || is_later t s'.not_before) (mode-Holds hn)
                  (start_next-Holds s' now o)))))

    withhold_for-Holds :
        (now : ℕ) (n : ℤ) (o : Occurrence)
        → Holds set (place_regime now) (withhold_for set o now n next)
    unfolding withhold_for
    withhold_for-Holds now (pos zero) o = attempt_leaf-Holds now o
    withhold_for-Holds now (negsuc n) o = attempt_leaf-Holds now o
    withhold_for-Holds now (pos (suc n)) o = mode-Holds (
        then-Safe
          (then-Safe
            (then-Safe
              (edit-Safe o.id (λ s. record s { not_before = due now (pos (suc n)) })
                (λ s. (refl, refl, refl)))
              (push-Safe _ o.id backoff))
            (note-Safe "DispatchWithheld" o.id))
          hn)

    ask_hook-Holds :
        (hook : Option (String → ℤ)) (now : ℕ) (o : Occurrence) (s : Scope S)
        → Holds set (place_regime now) (ask_hook set hook o s now next)
    unfolding ask_hook
    ask_hook-Holds none now o s = attempt_leaf-Holds now o
    ask_hook-Holds (some hook) now o s =
        choose-Holds (s.attempts == 0 && not s.withheld)
          (then-Holds
            (edit-Safe o.id (λ s'. record s' { withheld = true }) (λ s. (refl, refl, refl)))
            (withhold_for-Holds now _ o))
          (attempt_leaf-Holds now o)

    free_leaf-From :
        {r : Run H S} (o : Occurrence) (s : Scope S) (now : ℕ)
        → r.now ≡ now
        → leb set.concurrency (length r.inflight) ≡ false
        → From set outer r (ask_hook set set.withhold o s now next)
    free_leaf-From {r} o s now time free =
        Holds-From {g = place_regime now} (record { place = ground (arith, free); time = time })
          (ask_hook-Holds set.withhold now o s)

    take_place-Holds :
        (o : Occurrence) (s : Scope S) (now : ℕ)
        → Holds set (time_regime now) (
            asking
              (λ r. leb set.concurrency (length r.inflight))
              (λ full. choose full next (ask_hook set set.withhold o s now next)))
    take_place-Holds o s now = record {
      moves = λ r p.
          (asking-From {r = r} (λ r'. leb set.concurrency (length r'.inflight))
            (λ full. choose full next (ask_hook set set.withhold o s now next))
            (choose-From (λ full. From-each hn) (λ free. free_leaf-From o s now p free))).moves;
    }

    ready_leaf-Holds :
        (o : Occurrence) (s : Scope S) (now : ℕ)
        → Holds set (time_regime now) (ready_leaf set o s now next)
    unfolding ready_leaf
    ready_leaf-Holds o s now = then-Holds (mark_eligible-Safe o.id s) (take_place-Holds o s now)

    ready_now-From :
        {r : Run H S} (o : Occurrence) (s : Scope S)
        → From set outer r (ready_leaf set o s r.now next)
    ready_now-From {r} o s = Holds-From {g = time_regime r.now} refl (ready_leaf-Holds o s r.now)

    sort_leaf-From :
        {r : Run H S} (id : String) (o : Occurrence) (s : Scope S) (f : Run H S → List String)
        → From set outer r (
            asking f (λ reasons.
              choose
                (is_empty reasons)
                (ready_leaf set o s r.now next)
                (wait set id s reasons ▷ next)))
    sort_leaf-From {r} id o s f =
        asking-From {r = r} f
          (λ reasons.
            choose (is_empty reasons) (ready_leaf set o s r.now next)
              (wait set id s reasons ▷ next))
          (choose-From (λ e. ready_now-From o s) (λ e. From-each (then-Safe (wait-Safe id s _) hn)))

    dispatch_leaf-Safe : (id : String) → Safe set outer (dispatch_leaf set id next)
    unfolding dispatch_leaf
    dispatch_leaf-Safe id =
        search (every_run, with_scope-From, with_occurrence-From, asking-From, sort_leaf-From) depth
          9

  module _ (gated : IsGated set.port) where
    dispatch_each-Safe : (ids : List String) → Safe set outer (dispatch_each set ids)
    unfolding dispatch_each
    dispatch_each-Safe [] = skip-Safe
    dispatch_each-Safe (id ∷ ids) = dispatch_leaf-Safe gated (dispatch_each-Safe ids) id

    pub dispatch-Safe : Safe set outer (dispatch set)
    unfolding dispatch
    dispatch-Safe = asking-Safe _ (λ ids. dispatch_each-Safe ids)
