-- ===== src/Runtime/Actions.antt =====
-- How the Runtime notifies the policies of a scope, and performs their actions. `settle` is the
-- Runtime's settle, which is defined over these (Scopes). A scope or an occurrence that is missing
-- would be a nil pointer in the source; nothing is done for it here.
use subsea_cable_runtime.Base.{
  ℕ, ℤ, Bool, true, false, not, Option, none, some, String, List, [], ◌∷◌, ◌++◌,
}
use subsea_cable_runtime.Diag.{Diagnostic, policy, new}
use subsea_cable_runtime.Value.{Output, no_output}
use subsea_cable_runtime.Carousel.{Occurrence, is_leaf}
use subsea_cable_runtime.Runtime.Policy.{
  ScopeState, failed, cancelled, is_terminal, PolicyEvent, scope_opened, Action, admit, emit, hold,
  reattempt, start_timer, cancel_scope, fail_scope, other, BoundPolicy,
}
use subsea_cable_runtime.Runtime.State.{Scope, timer, backoff, due, less}
use subsea_cable_runtime.Runtime.Act.{
  Act, skip, ◌▷◌, asking, when, choose, each, with_scope, with_occurrence, note, note_diag, edit,
  push,
}

abbrev pub Settle : Type 0 → Type 0 → Type 0
Settle H S = String → ScopeState → Output → Option Diagnostic → Act H S

or_else : Option Diagnostic → Diagnostic → Diagnostic
or_else (some d) e = d
or_else none e = e

module _ {H S : Type 0} where
  -- The loop of notify, over `todo` after `done`; `k` goes on with the actions of all.
  unfoldable pub notify_from :
      String
      → Occurrence
      → PolicyEvent
      → ℕ
      → List (BoundPolicy S)
      → List (BoundPolicy S)
      → List Action
      → (List Action → Act H S)
      → Act H S
  unfolding ◌▷◌ asking each note edit
  notify_from id o ev attempts done [] acts k = k acts
  notify_from id o ev attempts done (b ∷ todo) acts k =
      asking
        (λ r.
          b.interp.on ev b.state
            (record { occurrence = o; args = b.ref.args; now = r.now; attempts = attempts }))
        (λ reply.
          each (λ a. note "PolicyAction" id) reply.0
          ▷ edit id (λ s. record s { policies = done ++ (record b { state = reply.1 }) ∷ todo })
          ▷ notify_from id o ev attempts (done ++ (record b { state = reply.1 }) ∷ []) todo
              (acts ++ reply.0) k)

  unfoldable pub notify_bound :
      String → PolicyEvent → Scope S → List (BoundPolicy S) → (List Action → Act H S) → Act H S
  unfolding notify_from with_occurrence
  notify_bound id ev s [] k = k []
  notify_bound id ev s (b ∷ bs) k =
      with_occurrence id (λ o. notify_from id o ev s.attempts [] (b ∷ bs) [] k)

  -- notify
  unfoldable pub notify : String → PolicyEvent → (List Action → Act H S) → Act H S
  unfolding notify_bound with_scope
  notify id ev k = with_scope id (λ s. notify_bound id ev s s.policies k)

  unfoldable pub hold_until : String → ℕ → ℤ → Act H S
  unfolding with_scope when edit push ◌▷◌
  hold_until id now ticks = with_scope id (λ s.
      when (less s.not_before (due now ticks)) (
        edit id (λ s'. record s' { not_before = due now ticks }) ▷ push (due now ticks) id backoff))

  module _ (settle : Settle H S) where
    -- rejectAction
    unfoldable pub reject_action : String → Act H S
    unfolding note_diag ◌▷◌
    reject_action id =
        let d : Diagnostic = record (new "UnsupportedPolicyTarget" policy none) {
          occurrence = id;
        } in
        note_diag "PolicyRejected" id (some d) ▷ settle id failed no_output (some d)

    -- One action of apply; `next` is the rest of the loop, and `k true` returns that the scope settled.
    unfoldable pub perform : String → Action → Act H S → (Bool → Act H S) → Act H S
    unfolding reject_action hold_until asking with_occurrence choose push note ◌▷◌ or_else
    perform id admit next k = next
    perform id emit next k = next
    perform id (start_timer ticks token) next k =
        asking (λ r. r.now) (λ now. push (due now ticks) id (timer token))
        ▷ note "TimerStarted" id
        ▷ next
    perform id (hold ticks) next k = with_occurrence id (λ o.
        choose (is_leaf o) (asking (λ r. r.now) (λ now. hold_until id now ticks) ▷ next)
          (reject_action id ▷ k true))
    perform id (reattempt ticks) next k =
        with_occurrence id (λ o. choose (is_leaf o) next (reject_action id ▷ k true))
    perform id (cancel_scope d) next k =
        settle id cancelled no_output (some (or_else d (new "CancelledByPolicy" policy none)))
        ▷ k true
    perform id (fail_scope d) next k =
        settle id failed no_output
          (some (record (or_else d (new "FailedByPolicy" policy none)) { occurrence = id }))
        ▷ k true
    perform id other next k = reject_action id ▷ k true

    -- apply
    unfoldable pub apply : String → List Action → (Bool → Act H S) → Act H S
    unfolding perform with_scope choose
    apply id [] k = k false
    apply id (a ∷ acts) k =
        with_scope id
          (λ s. choose (is_terminal s.state) (k true) (perform id a (apply id acts k) k))

    -- Notify, and apply what the policies answer.
    unfoldable pub consult : String → PolicyEvent → (Bool → Act H S) → Act H S
    unfolding notify apply
    consult id ev k = notify id ev (λ acts. apply id acts k)

    -- open
    unfoldable pub open_once : String → Act H S
    unfolding with_scope when edit consult ◌▷◌
    open_once id = with_scope id (λ s.
        when (not s.opened)
          (edit id (λ s'. record s' { opened = true }) ▷ consult id scope_opened (λ settled. skip)))
