-- ===== src/Runtime/Moves/Settling.antt =====
-- The moves of settle, cancelSubtree and evaluateParent.
use subsea_cable_runtime.Base.{
  ℕ, zero, suc, length, ◌≡◌, refl, ◌∙◌, true, false, not, Option, none, some, String, get,
  string_eq, get-put, beq_self, ◌&&◌,
}
use subsea_cable_runtime.Diag.{Diagnostic}
use subsea_cable_runtime.Value.{Output}
use subsea_cable_runtime.Carousel.{Occurrence, deducible, is_undeduced}
use subsea_cable_runtime.Runtime.Policy.{ScopeState, PolicyEvent, is_terminal, cancel_requested}
use subsea_cable_runtime.Runtime.State.{Run, Scope, Settings}
use subsea_cable_runtime.Runtime.Act.{
  note_diag, note, choose, asking, after, skip, ◌▷◌, when, choose, put_scope, edit, with_occurrence,
  occurrence_of,
}
use subsea_cable_runtime.Runtime.Actions.{Settle, notify, consult}
use subsea_cable_runtime.Runtime.Scopes.{
  resolve_value, withdraw_child, stop_child, cancel_child, cancel_subtree, settle_parent,
  evaluate_parent, report_outcome, release, settle_scope, settle_body, settle_from, settle,
  is_satisfied, Proposal,
}
use subsea_cable_runtime.Runtime.Moves.{Mode, quiet, is_loud, resolves}
use subsea_cable_runtime.Runtime.Moves.Acts.{
  Safe, From, Holds, Holds-then, From-then, Holds-From, with_scope-From, with_occurrence-From,
  when-From, choose-Holds, when-Holds, exhaust-Safe, asking-Safe, choose-Safe, note_diag-Safe,
  with_occurrence-Holds, plain, Holds-Safe, Safe-Holds, one, safe_acts, then-Safe, then-From,
  then-Holds, every_run, skip-Safe, put_scope-From, note-Safe,
}
use subsea_cable_runtime.Runtime.Moves.Policies.{IsSettling, notify-Holds, consult-Holds}
use subsea_cable_runtime.Runtime.Moves.Reports.{not-true, ensure_scope-Safe, drain_events-Safe}
use subsea_cable_runtime.Runtime.Moves.Finishing.{
  cancel_attempts-Safe, finish_root-Safe, live_regime, resolved_regime, satisfied-only,
}
use subsea_cable_runtime.Runtime.Moves.Outcomes.{HasOutcome}

module _ {H S : Type 0} {set : Settings H S} {m : Mode} (loud : is_loud m ≡ true) where
  -- Any assignment to a scope that is not terminal.
  edit-live : (id : String) (f : Scope S → Scope S) → Holds set (live_regime id m) (edit id f)
  unfolding edit
  edit-live id f = record {
    moves = λ r l.
        (with_scope-From {m = m} {r = r} id
          (λ s e. put_scope-From id s (f s) loud e (cc (e, l.there, l.not_settled)))).moves;
  }

  resolve-From :
      {r : Run H S} (id : String) (s : Scope S)
      → HasOutcome id s r.scopes
      → is_satisfied s.state ≡ true
      → From set m r (resolve_value id s.out)
  unfolding resolve_value after
  resolve-From id s o sat = record {
    moves = one (
        resolves id o.found o.there (o.same_state ∙ satisfied-only s.state sat)
          (rw o.same_out refl));
  }

  resolve_value-Holds :
      (id : String) (s : Scope S)
      → Holds set (resolved_regime id s m) (when (is_satisfied s.state) (resolve_value id s.out))
  unfolding resolve_value after
  resolve_value-Holds id s = record {
    moves = λ r p. (when-From {m = m} {r = r} (λ sat. resolve-From id s (p.outcome sat) sat)).moves;
  }

  module _ {settle : Settle H S} (h : IsSettling set m settle) where
    withdraw_child-Holds :
        (cid : String) → Holds set (live_regime cid m) (withdraw_child set settle cid)
    unfolding withdraw_child
    withdraw_child-Holds cid =
        search (Holds-then, then-Holds, safe_acts, edit-live, drain_events-Safe, loud, h)

    quiet_notice-Safe : (cid : String) → Safe set quiet (notify cid cancel_requested (λ acts. skip))
    quiet_notice-Safe cid =
        Holds-Safe (notify-Holds cid cancel_requested (λ acts. Safe-Holds skip-Safe))

    stop_child-Holds :
        (cid : String) (c : Occurrence)
        → Holds set (live_regime cid m) (stop_child set settle cid c)
    unfolding stop_child
    stop_child-Holds cid c =
        search
          (
            Holds-then, then-Holds, safe_acts, cancel_attempts-Safe, quiet_notice-Safe, edit-live,
            drain_events-Safe, loud, h,
          )
          depth 8

    -- The part of cancel_child for a scope that is not terminal.
    cancel_live-Holds :
        (cid : String)
        → Holds set (live_regime cid m) (
            with_occurrence cid (λ c.
              choose
                (deducible c && is_undeduced c.state)
                (withdraw_child set settle cid)
                (stop_child set settle cid c)))
    cancel_live-Holds cid =
        with_occurrence-Holds cid
          (λ c. choose-Holds _ (withdraw_child-Holds cid) (stop_child-Holds cid c))

    cancel_child-Safe : (cid : String) → Safe set m (cancel_child set settle cid)
    unfolding cancel_child
    cancel_child-Safe cid = then-Safe (ensure_scope-Safe loud cid) (
        every_run (λ r. with_scope-From cid (λ s e. when-From (λ live.
          Holds-From {g = live_regime cid m}
            (record { scope = s; there = e; not_settled = not-true _ live })
            (cancel_live-Holds cid)))))

    cancel_subtree-Safe : (f : ℕ) (id : String) → Safe set m (cancel_subtree set settle f id)
    unfolding cancel_subtree
    cancel_subtree-Safe zero id = exhaust-Safe
    cancel_subtree-Safe (suc f) id =
        let below : (cid : String) → Safe set m (cancel_subtree set settle f cid) =
          λ cid. cancel_subtree-Safe f cid in
        search (safe_acts, cancel_child-Safe, below)

    settle_parent-Safe : (id : String) (p : Proposal) → Safe set m (settle_parent set settle id p)
    unfolding settle_parent
    settle_parent-Safe id (st, out, d) =
        Holds-Safe
          (consult-Holds {g = plain m} h id _ (λ b. when-Holds _ (Safe-Holds (h.settles _ _ _ _))))

    evaluate_parent-Safe : (p : Occurrence) → Safe set m (evaluate_parent set settle p)
    unfolding evaluate_parent
    evaluate_parent-Safe p = search (safe_acts, ensure_scope-Safe, loud, settle_parent-Safe)

    consult_parent-Safe :
        (id : String) (ev : PolicyEvent) (p : Occurrence)
        → Safe set m
            (consult settle id ev (λ stopped. when (not stopped) (evaluate_parent set settle p)))
    consult_parent-Safe id ev p = Holds-Safe (
        consult-Holds {g = plain m} h id ev
          (λ b. when-Holds _ (Safe-Holds (evaluate_parent-Safe p))))

    report_outcome-Safe :
        (id : String) (st : ScopeState) (out : Output) (d : Option Diagnostic)
        (mp : Option Occurrence)
        → Safe set m (report_outcome set settle id st out d mp)
    unfolding report_outcome
    report_outcome-Safe id st out d none = finish_root-Safe st out d
    report_outcome-Safe id st out d (some p) =
        search (safe_acts, ensure_scope-Safe, loud, consult_parent-Safe)

    release-Holds :
        (id : String) (s : Scope S) (o : Occurrence)
        → Holds set (resolved_regime id s m) (release set settle id s.state s.out o)
    unfolding release
    release-Holds id s o =
        search (then-Holds, resolve_value-Holds, safe_acts, drain_events-Safe, loud, h) depth 8

    -- A scope that is not terminal gets its outcome, and what it holds is released.
    put_release-From :
        {r : Run H S} (id : String) (s t : Scope S) (o : Occurrence)
        → get id r.scopes ≡ some s
        → is_terminal s.state ≡ false
        → From set m r (put_scope id t ▷ release set settle id t.state t.out o)
    unfolding put_scope after
    put_release-From {r} id s t o e live =
        From-then {g = resolved_regime id t m} (put_scope-From id s t loud e live)
          (record {
            outcome = λ sat. record {
              found = t;
              there = get-put id id t r.scopes ∙ rw (beq_self id) refl;
              same_state = refl;
              same_out = refl;
              same_diag = refl;
            };
          })
          (release-Holds id t o)

    -- All of it but the report to the parent.
    pub before_report-From :
        {r : Run H S} (id : String) (st : ScopeState) (out : Output) (d : Option Diagnostic)
        (s : Scope S) (o : Occurrence)
        → get id r.scopes ≡ some s
        → is_terminal s.state ≡ false
        → From set m r (
            put_scope id (record s { state = st; out = out; diag = d })
            ▷ release set settle id st out o
            ▷ note_diag "ScopeOutcome" id d
            ▷ choose (is_satisfied st) (note "ValueResolved" id) (
                asking
                  (λ r'. suc (length r'.car.occs))
                  (λ depth. cancel_subtree set settle depth id)))
    before_report-From {r} id st out d s o e live =
        then-From
          (then-From (put_release-From id s (record s { state = st; out = out; diag = d }) o e live)
            (note_diag-Safe "ScopeOutcome" id d))
          (choose-Safe (is_satisfied st) (note-Safe "ValueResolved" id)
            (asking-Safe (λ r. suc (length r.car.occs)) (λ depth. cancel_subtree-Safe depth id)))

    settle_scope-From :
        {r : Run H S} (id : String) (st : ScopeState) (out : Output) (d : Option Diagnostic)
        (s : Scope S) (o : Occurrence)
        → get id r.scopes ≡ some s
        → is_terminal s.state ≡ false
        → From set m r (settle_scope set settle id st out d s o)
    unfolding settle_scope
    settle_scope-From id st out d s o e live =
        then-From (before_report-From id st out d s o e live)
          (asking-Safe (occurrence_of o.parent_id) (report_outcome-Safe id st out d))

    pub settle_body-Safe :
        (id : String) (st : ScopeState) (out : Output) (d : Option Diagnostic)
        → Safe set m (settle_body set settle id st out d)
    unfolding settle_body
    settle_body-Safe id st out d =
        search
          (every_run, with_scope-From, when-From, with_occurrence-From, settle_scope-From, not-true)
          depth 9

module _ {H S : Type 0} (set : Settings H S) {m : Mode} (loud : is_loud m ≡ true) where
  pub settle_from-IsSettling : (f : ℕ) → IsSettling set m (settle_from set f)
  unfolding settle_from
  settle_from-IsSettling zero = record { settles = λ id st out d. exhaust-Safe }
  settle_from-IsSettling (suc f) = record {
    settles = settle_body-Safe loud (settle_from-IsSettling f);
  }

  -- settle is a sequence of moves.
  pub settle-IsSettling : IsSettling set m (settle set)
  unfolding settle
  settle-IsSettling = record { settles = λ id st out d. asking_fuel id st out d }
    where
      asking_fuel :
          (id : String) (st : ScopeState) (out : Output) (d : Option Diagnostic)
          → Safe set m (settle set id st out d)
      asking_fuel id st out d =
          asking-Safe (λ r. suc (length r.car.occs))
            (λ f. (settle_from-IsSettling f).settles id st out d)
