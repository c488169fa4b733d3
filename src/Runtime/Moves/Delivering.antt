-- ===== src/Runtime/Moves/Delivering.antt =====
-- The moves of deliver.
use subsea_cable_runtime.Base.{
  ℕ, zero, suc, ℤ, pos, negsuc, refl, not, Option, none, some, String, List, string_eq,
}
use subsea_cable_runtime.Host.{Outcome, Status, status_text}
use subsea_cable_runtime.Host
use subsea_cable_runtime.Runtime.Policy.{Action, attempt_outcome, timer_fired}
use subsea_cable_runtime.Runtime.State.{
  Settings, Attempt, ItemKind, completion, timer, backoff, waiting,
}
use subsea_cable_runtime.Runtime.Act.{after, when, skip}
use subsea_cable_runtime.Runtime.Actions.{apply, notify, consult}
use subsea_cable_runtime.Runtime.Scopes.{settle}
use subsea_cable_runtime.Runtime.Deliver.{
  hook_reattempts, push_backoff, schedule_reattempt, settle_leaf, conclude, after_attempt,
  after_reattempt, take_flight, deliver_completion, deliver_timer, deliver,
}
use subsea_cable_runtime.Runtime.Moves.{outer, lands}
use subsea_cable_runtime.Runtime.Moves.Acts.{
  Safe, plain, safe_acts, Holds-Safe, Safe-Holds, when-Holds, then-Safe, choose-Safe, skip-Safe,
  push-Safe, one, edit-Safe, note-Safe,
}
use subsea_cable_runtime.Runtime.Moves.Policies.{
  IsSettling, notify-Holds, apply-Holds, consult-Holds,
}
use subsea_cable_runtime.Runtime.Moves.Settling.{settle-IsSettling}

module _ {H S : Type 0} (set : Settings H S) where
  pub settling : IsSettling set outer (settle set)
  settling = settle-IsSettling set refl

  push_backoff-Safe :
      (id : String) (now : ℕ) (ticks : ℤ) → Safe set outer (push_backoff id now ticks)
  unfolding push_backoff
  push_backoff-Safe id now (pos zero) = skip-Safe
  push_backoff-Safe id now (negsuc n) = skip-Safe
  push_backoff-Safe id now (pos (suc n)) = push-Safe _ id backoff

  schedule_reattempt-Safe : (id : String) (ticks : ℤ) → Safe set outer (schedule_reattempt id ticks)
  unfolding schedule_reattempt
  schedule_reattempt-Safe id ticks = search (safe_acts, push_backoff-Safe) depth 8

  settle_leaf-Safe :
      (id : String) (st : Status) (out : Outcome) → Safe set outer (settle_leaf set id st out)
  unfolding settle_leaf
  settle_leaf-Safe id Host.succeeded out = search (settling.settles)
  settle_leaf-Safe id Host.cancelled out = search (settling.settles)
  settle_leaf-Safe id Host.failed out = search (settling.settles)

  apply_leaf-Safe :
      (id : String) (out : Outcome) (acts : List Action)
      → Safe set outer (
          apply
            (settle set)
            id
            acts
            (λ settled. when (not settled) (settle_leaf set id out.status out)))
  apply_leaf-Safe id out acts = Holds-Safe (
      apply-Holds {g = plain outer} settling id acts
        (λ b. when-Holds (not b) (Safe-Holds (settle_leaf-Safe id out.status out))))

  conclude-Safe :
      (id : String) (n : ℕ) (out : Outcome) (acts : List Action)
      → Safe set outer (conclude set id n out acts)
  unfolding conclude
  conclude-Safe id n out acts =
      choose-Safe (hook_reattempts set.reattempt out.status id n)
        (then-Safe (edit-Safe id (λ s. record s { leaf = waiting }) (λ s. (refl, refl, refl)))
          (note-Safe "ReattemptScheduled" id))
        (apply_leaf-Safe id out acts)

  after_reattempt-Safe :
      (id : String) (n : ℕ) (out : Outcome) (acts : List Action) (ticks : Option ℤ)
      → Safe set outer (after_reattempt set id n out acts ticks)
  unfolding after_reattempt
  after_reattempt-Safe id n out acts (some ticks) = schedule_reattempt-Safe id ticks
  after_reattempt-Safe id n out acts none = conclude-Safe id n out acts

  after_attempt-Safe :
      (id : String) (n : ℕ) (out : Outcome) (acts : List Action)
      → Safe set outer (after_attempt set id n out acts)
  unfolding after_attempt
  after_attempt-Safe id n out acts = after_reattempt-Safe id n out acts _

  notify_attempt-Safe :
      (id : String) (n : ℕ) (out : Outcome)
      → Safe set outer (notify id (attempt_outcome out n) (after_attempt set id n out))
  notify_attempt-Safe id n out =
      Holds-Safe (
        notify-Holds {g = plain outer} id _ (λ acts. Safe-Holds (after_attempt-Safe id n out acts)))

  deliver_completion-Safe :
      (id : String) (out : Outcome) (mat : Option Attempt)
      → Safe set outer (deliver_completion set id out mat)
  unfolding deliver_completion
  deliver_completion-Safe id out none = note-Safe _ _
  deliver_completion-Safe id out (some at) = search (safe_acts, notify_attempt-Safe)

  consult_timer-Safe :
      (id token : String)
      → Safe set outer (consult (settle set) id (timer_fired token) (λ settled. skip))
  consult_timer-Safe id token =
      Holds-Safe (consult-Holds {g = plain outer} settling id _ (λ b. Safe-Holds skip-Safe))

  deliver_timer-Safe : (id token : String) → Safe set outer (deliver_timer set id token)
  unfolding deliver_timer
  deliver_timer-Safe id token = search (safe_acts, consult_timer-Safe)

  take_flight-Safe : (id : String) → Safe set outer (take_flight id)
  unfolding take_flight after
  take_flight-Safe id = record { moves = λ r. one (lands id refl) }

  pub deliver-Safe : (id : String) (kind : ItemKind) → Safe set outer (deliver set id kind)
  unfolding deliver
  deliver-Safe id (timer token) = deliver_timer-Safe id token
  deliver-Safe id (completion attempt out) =
      search (safe_acts, take_flight-Safe, deliver_completion-Safe)
  deliver-Safe id backoff = note-Safe _ _
