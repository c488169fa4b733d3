-- ===== src/Runtime/Deliver.antt =====
-- deliver of runtime/runtime.go: a completion, a timer or a backoff that the timeline hands over.
use subsea_cable_runtime.Base.{
  ℕ, zero, suc, ℤ, pos, negsuc, Bool, true, false, not, Option, none, some, String, List, [], ◌∷◌,
  ◌<>◌, get, del, string_eq,
}
use subsea_cable_runtime.Diag.{Diagnostic, host, new}
use subsea_cable_runtime.Value.{no_output}
use subsea_cable_runtime.Host.{Status, Outcome, status_text}
use subsea_cable_runtime.Host
use subsea_cable_runtime.Runtime.Policy.{
  ScopeState, satisfied, is_terminal, Action, reattempt, attempt_outcome, timer_fired,
}
use subsea_cable_runtime.Runtime.Policy
use subsea_cable_runtime.Runtime.State.{
  Scope, waiting, Settings, Attempt, ItemKind, completion, timer, backoff, due,
}
use subsea_cable_runtime.Runtime.Act.{
  act, Act, skip, ◌▷◌, asking, when, choose, scope_of, with_scope, note, note_diag, edit, push,
}
use subsea_cable_runtime.Runtime.Actions.{notify, apply, consult}
use subsea_cable_runtime.Runtime.Scopes.{settle}

abbrev is_failed : Status → Bool
is_failed Host.failed = true
is_failed _ = false

-- The ticks of the first Reattempt.
first_reattempt : List Action → Option ℤ
first_reattempt [] = none
first_reattempt (reattempt ticks ∷ acts) = some ticks
first_reattempt (a ∷ acts) = first_reattempt acts

-- The Reattempt that a failed attempt gets.
reattempt_after : Status → List Action → Option ℤ
unfolding first_reattempt
reattempt_after Host.failed acts = first_reattempt acts
reattempt_after st acts = none

leaf_diag : String → Option Diagnostic → Diagnostic
leaf_diag id (some d) = record d { occurrence = id }
leaf_diag id none = record (new "LeafFailed" host none) { occurrence = id }

-- A timer is for a scope that is there and not terminal.
is_ready : {S : Type 0} → Option (Scope S) → Bool
is_ready none = false
is_ready (some s) = not (is_terminal s.state)

-- The hook ReattemptAfterFailure, when it is set.
pub hook_reattempts : Option (String → ℕ → Bool) → Status → String → ℕ → Bool
hook_reattempts (some hook) Host.failed id n = hook id n
hook_reattempts mhook st id n = false

module _ {H S : Type 0} where
  unfoldable pub push_backoff : String → ℕ → ℤ → Act H S
  unfolding push
  push_backoff id now (pos (suc ticks)) = push (due now (pos (suc ticks))) id backoff
  push_backoff id now (pos zero) = skip
  push_backoff id now (negsuc ticks) = skip

  unfoldable pub schedule_reattempt : String → ℤ → Act H S
  unfolding asking edit note push_backoff ◌▷◌
  schedule_reattempt id ticks =
      asking (λ r. r.now)
        (λ now.
          edit id (λ s. record s { leaf = waiting; not_before = due now ticks })
          ▷ note "ReattemptScheduled" id
          ▷ push_backoff id now ticks)

  unfoldable pub take_flight : String → Act H S
  take_flight attempt = act (λ r. record r { inflight = del attempt r.inflight })

module _ {H S : Type 0} (set : Settings H S) where
  unfoldable pub settle_leaf : String → Status → Outcome → Act H S
  unfolding settle leaf_diag
  settle_leaf id Host.succeeded out = settle set id satisfied out.result none
  settle_leaf id Host.cancelled out = settle set id Policy.cancelled no_output out.diag
  settle_leaf id Host.failed out =
      settle set id Policy.failed no_output (some (leaf_diag id out.diag))

  -- What follows when no policy scheduled a reattempt.
  unfoldable pub conclude : String → ℕ → Outcome → List Action → Act H S
  unfolding hook_reattempts choose edit note apply settle when settle_leaf ◌▷◌
  conclude id n out acts =
      choose (hook_reattempts set.reattempt out.status id n)
        (edit id (λ s. record s { leaf = waiting }) ▷ note "ReattemptScheduled" id)
        (apply (settle set) id acts (λ settled. when (not settled) (settle_leaf id out.status out)))

  unfoldable pub after_reattempt : String → ℕ → Outcome → List Action → Option ℤ → Act H S
  unfolding schedule_reattempt conclude
  after_reattempt id n out acts (some ticks) = schedule_reattempt id ticks
  after_reattempt id n out acts none = conclude id n out acts

  unfoldable pub after_attempt : String → ℕ → Outcome → List Action → Act H S
  unfolding reattempt_after after_reattempt
  after_attempt id n out acts = after_reattempt id n out acts (reattempt_after out.status acts)

  unfoldable pub deliver_completion : String → Outcome → Option Attempt → Act H S
  unfolding note choose with_scope note_diag notify after_attempt ◌▷◌
  deliver_completion id out none = note "LateCompletionIgnored" id
  deliver_completion id out (some at) = choose at.cancelled (note "LateCompletionIgnored" id) (
      with_scope id (λ s.
        note_diag ("Evaluation" <> status_text out.status) id out.diag
        ▷ notify id (attempt_outcome out at.number) (after_attempt id at.number out)))

  unfoldable pub deliver_timer : String → String → Act H S
  unfolding is_ready asking scope_of choose note consult settle ◌▷◌
  deliver_timer id token =
      asking (λ r. is_ready (scope_of id r))
        (λ ready.
          choose ready
            (note "TimerFired" id ▷ consult (settle set) id (timer_fired token) (λ settled. skip))
            (note "TimerIgnored" id))

  -- deliver
  unfoldable pub deliver : String → ItemKind → Act H S
  unfolding asking take_flight deliver_completion deliver_timer note ◌▷◌
  deliver id (timer token) = deliver_timer id token
  deliver id (completion attempt out) =
      asking (λ r. get attempt r.inflight)
        (λ mat. take_flight attempt ▷ deliver_completion id out mat)
  deliver id backoff = note "BackoffElapsed" id
