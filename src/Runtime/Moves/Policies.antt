-- ===== src/Runtime/Moves/Policies.antt =====
-- The moves of a notification, and of what policies ask for.
use subsea_cable_runtime.Base.{ℤ, ℕ, string_eq, Option, Bool, true, false, String, List, [], ◌∷◌}
use subsea_cable_runtime.Diag.{Diagnostic}
use subsea_cable_runtime.Value.{Output}
use subsea_cable_runtime.Carousel.{Occurrence, is_leaf}
use subsea_cable_runtime.Runtime.Policy.{
  Action, admit, emit, hold, reattempt, start_timer, cancel_scope, fail_scope, other, PolicyEvent,
  BoundPolicy, is_terminal, ScopeState,
}
use subsea_cable_runtime.Runtime.State.{Scope, Settings}
use subsea_cable_runtime.Runtime.Act.{Act, asking}
use subsea_cable_runtime.Runtime.Actions.{
  Settle, notify_from, notify_bound, notify, reject_action, hold_until, perform, apply, consult,
  open_once,
}
use subsea_cable_runtime.Runtime.Moves.{Mode}
use subsea_cable_runtime.Runtime.Moves.Acts.{
  Safe, Holds, Regime, then-Holds, with_scope-Holds, with_occurrence-Holds, choose-Holds, held_acts,
  safe_acts,
}

-- A settle that is a sequence of moves of the mode.
pub record IsSettling {H S : Type 0} (set : Settings H S) (m : Mode) (settle : Settle H S)
    : Type 0 where
  pub settles :
      (id : String) (st : ScopeState) (out : Output) (d : Option Diagnostic)
      → Safe set m (settle id st out d)

module _ {H S : Type 0} {set : Settings H S} where
  module _ {g : Regime set} where
    pub notify_from-Holds :
        (id : String) (o : Occurrence) (ev : PolicyEvent) (n : ℕ) (done todo : List (BoundPolicy S))
        (acts : List Action) {k : List Action → Act H S}
        → ((all : List Action) → Holds set g (k all))
        → Holds set g (notify_from id o ev n done todo acts k)
    unfolding notify_from
    notify_from-Holds id o ev n done [] acts h = h acts
    notify_from-Holds id o ev n done (b ∷ todo) acts {k} h =
        let rest : (done' : List (BoundPolicy S)) (acts' : List Action)
            → Holds set g (notify_from id o ev n done' todo acts' k) =
          λ done' acts'. notify_from-Holds id o ev n done' todo acts' h in
        search (held_acts, rest) depth 9

    notify_bound-Holds :
        (id : String) (ev : PolicyEvent) (s : Scope S) (bs : List (BoundPolicy S))
        {k : List Action → Act H S}
        → ((acts : List Action) → Holds set g (k acts))
        → Holds set g (notify_bound id ev s bs k)
    unfolding notify_bound
    notify_bound-Holds id ev s [] h = h []
    notify_bound-Holds id ev s (b ∷ bs) h =
        with_occurrence-Holds id (λ o. notify_from-Holds id o ev s.attempts [] (b ∷ bs) [] h)

    pub notify-Holds :
        (id : String) (ev : PolicyEvent) {k : List Action → Act H S}
        → ((acts : List Action) → Holds set g (k acts))
        → Holds set g (notify id ev k)
    unfolding notify
    notify-Holds id ev h = with_scope-Holds id (λ s. notify_bound-Holds id ev s s.policies h)

  hold_until-Safe :
      {m : Mode} (id : String) (ticks : ℤ)
      → Safe set m (asking (λ r. r.now) (λ now. hold_until id now ticks))
  unfolding hold_until
  hold_until-Safe id ticks = search safe_acts depth 8

  module _ {settle : Settle H S} where
    reject_action-Safe :
        {m : Mode} (id : String) → IsSettling set m settle → Safe set m (reject_action settle id)
    unfolding reject_action
    reject_action-Safe id h = search (safe_acts, h.settles)

    module _ {g : Regime set} (h : IsSettling set g.base settle) where
      perform-Holds :
          (id : String) (a : Action) {next : Act H S} {k : Bool → Act H S}
          → Holds set g next
          → ((b : Bool) → Holds set g (k b))
          → Holds set g (perform settle id a next k)
      unfolding perform
      perform-Holds id admit hn hk = hn
      perform-Holds id emit hn hk = hn
      perform-Holds id (start_timer ticks token) hn hk = search (held_acts, hn)
      perform-Holds id (hold ticks) hn hk = with_occurrence-Holds id (λ o.
          choose-Holds (is_leaf o) (then-Holds (hold_until-Safe id ticks) hn)
            (then-Holds (reject_action-Safe id h) (hk true)))
      perform-Holds id (reattempt ticks) hn hk =
          with_occurrence-Holds id
            (λ o. choose-Holds (is_leaf o) hn (then-Holds (reject_action-Safe id h) (hk true)))
      perform-Holds id (cancel_scope d) hn hk = search (held_acts, h.settles, hk)
      perform-Holds id (fail_scope d) hn hk = search (held_acts, h.settles, hk)
      perform-Holds id other hn hk = then-Holds (reject_action-Safe id h) (hk true)

      pub apply-Holds :
          (id : String) (acts : List Action) {k : Bool → Act H S}
          → ((b : Bool) → Holds set g (k b))
          → Holds set g (apply settle id acts k)
      unfolding apply
      apply-Holds id [] hk = hk false
      apply-Holds id (a ∷ acts) hk = with_scope-Holds id (λ s.
          choose-Holds (is_terminal s.state) (hk true)
            (perform-Holds id a (apply-Holds id acts hk) hk))

      pub consult-Holds :
          (id : String) (ev : PolicyEvent) {k : Bool → Act H S}
          → ((b : Bool) → Holds set g (k b))
          → Holds set g (consult settle id ev k)
      unfolding consult
      consult-Holds id ev hk = notify-Holds id ev (λ acts. apply-Holds id acts hk)

      pub open_once-Holds : (id : String) → Holds set g (open_once settle id)
      unfolding open_once
      open_once-Holds id = search (held_acts, consult-Holds id)
