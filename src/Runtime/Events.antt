-- ===== src/Runtime/Events.antt =====
-- handle of runtime/runtime.go: what the Runtime does about the events of the Carousel.
use subsea_cable_runtime.Base.{
  ℕ, Bool, true, false, not, some, String, List, [], ◌∷◌, ◌==◌, string_eq, is_some, if◌then◌else◌,
}
use subsea_cable_runtime.Diag.{as_diagnostic, Res, ok, err}
use subsea_cable_runtime.Value.{no_output}
use subsea_cable_runtime.Carousel.{
  Occurrence, PolicyRef, Event, EventKind, occurrence_exposed, alias_resolved, deduction_committed,
  deduction_failed, deduction_blocked, touchdown_published, touchdown_consumed, touchdown_discarded,
  demand_observed, demand_withdrawn, prefetch_reconfigured, prefetch_target_reached,
  prefetch_blocked, prefetch_exhausted, atomic_prefetch_overshoot, demanded_touchdown_over_target,
  deducible, is_leaf, drain,
}
use subsea_cable_runtime.Carousel.Calls
use subsea_cable_runtime.Runtime.Trace.{trace_event}
use subsea_cable_runtime.Runtime.Policy.{
  ScopeState, undeduced, open_scope, failed, withdrawn, is_terminal, BoundPolicy, bind,
}
use subsea_cable_runtime.Runtime.State.{Scope, scope_literal, no_leaf, grounded, Settings}
use subsea_cable_runtime.Runtime.Act.{
  Act, ◌▷◌, asking, when, choose, each, scope_of, with_scope, with_occurrence, log, note, note_diag,
  put_scope, edit, tell,
}
use subsea_cable_runtime.Runtime.Actions.{Settle, open_once}

abbrev pub kind_text : EventKind → String
kind_text occurrence_exposed = "OccurrenceExposed"
kind_text alias_resolved = "AliasResolved"
kind_text deduction_committed = "DeductionCommitted"
kind_text deduction_failed = "DeductionFailed"
kind_text deduction_blocked = "DeductionBlocked"
kind_text touchdown_published = "TouchdownPublished"
kind_text touchdown_consumed = "TouchdownConsumed"
kind_text touchdown_discarded = "TouchdownDiscarded"
kind_text demand_observed = "DemandObserved"
kind_text demand_withdrawn = "DemandWithdrawn"
kind_text prefetch_reconfigured = "PrefetchReconfigured"
kind_text prefetch_target_reached = "PrefetchTargetReached"
kind_text prefetch_blocked = "PrefetchBlocked"
kind_text prefetch_exhausted = "PrefetchExhausted"
kind_text atomic_prefetch_overshoot = "AtomicPrefetchOvershoot"
kind_text demanded_touchdown_over_target = "DemandedTouchdownOverTarget"

unfoldable pub fresh_scope : {S : Type 0} → Occurrence → Scope S
fresh_scope o = record (scope_literal o.id (if deducible o then undeduced else open_scope)) {
  leaf = if is_leaf o then grounded else no_leaf;
}

abbrev pub is_open : ScopeState → Bool
is_open open_scope = true
is_open _ = false

module _ {H S : Type 0} where
  -- ensureScope
  unfoldable pub ensure_scope : String → Act H S
  unfolding asking scope_of when with_occurrence put_scope fresh_scope
  ensure_scope id =
      asking (λ r. is_some (scope_of id r))
        (λ there. when (not there) (with_occurrence id (λ o. put_scope id (fresh_scope o))))

  module _ (set : Settings H S) (settle : Settle H S) where
    -- An event of a Touchdown, with its typed fields.
    unfoldable pub log_touchdown : Event → Act H S
    unfolding asking log
    log_touchdown e =
        asking (λ r. r.now)
          (λ now. log (record (trace_event now (kind_text e.kind) e.occ) {
            run_id = set.car_cfg.run_id;
            evaluation_instance = e.evaluation_instance;
            attempt = e.attempt;
            reason = e.reason;
            window = some e.window;
          }))

    unfoldable pub log_over_target : Event → Act H S
    unfolding asking log
    log_over_target e =
        asking (λ r. r.now)
          (λ now. log (record (trace_event now (kind_text e.kind) e.occ) {
            run_id = set.car_cfg.run_id;
            window = some e.window;
            target = some e.count;
          }))

    unfoldable pub open_when_open : String → Act H S
    unfolding open_once with_scope when
    open_when_open id = with_scope id (λ s. when (is_open s.state) (open_once settle id))

    unfoldable pub attach : String → Res (List (BoundPolicy S)) → Act H S
    unfolding edit each note note_diag ◌▷◌ open_when_open
    attach id (err e) =
        note_diag "PolicyRejected" id (as_diagnostic e)
        ▷ settle id failed no_output (as_diagnostic e)
    attach id (ok bound) =
        edit id (λ s. record s { policies = bound })
        ▷ each (λ b. note "PolicyAttached" id) bound
        ▷ open_when_open id

    unfoldable pub attach_all : String → Occurrence → ℕ → List PolicyRef → Act H S
    unfolding attach open_when_open
    attach_all id o now [] = open_when_open id
    attach_all id o now (p ∷ ps) = attach id (bind set.registry o now)

    unfoldable pub exposed : String → Act H S
    unfolding note ensure_scope with_scope with_occurrence when asking attach_all ◌▷◌
    exposed id =
        note "OccurrenceExposed" id
        ▷ ensure_scope id
        ▷ with_scope id (λ s.
          when (not (is_terminal s.state))
            (with_occurrence id (λ o. asking (λ r. r.now) (λ now. attach_all id o now o.policies))))

    unfoldable pub deduced : Event → Act H S
    unfolding asking log with_scope when put_scope edit open_once ◌▷◌
    deduced e =
        asking (λ r. r.now)
          (λ now. log (record (trace_event now "DeductionCommitted" e.occ) { entry = e.entry }))
        ▷ with_scope e.occ (λ s.
          when (not (is_terminal s.state))
            (put_scope e.occ (record s { state = open_scope }) ▷ open_once settle e.occ))

    unfoldable pub not_deduced : Event → Act H S
    unfolding note_diag with_scope choose edit note ◌▷◌
    not_deduced e =
        note_diag "DeductionFailed" e.occ e.diag
        ▷ with_scope e.occ (λ s.
          choose (e.reason == "prefetch")
            (edit e.occ (λ s'. record s' { deferred = e.diag })
              ▷ note "DeductionFailureDeferred" e.occ)
            (settle e.occ failed no_output e.diag))

    unfoldable pub withdrawn_demand : String → Act H S
    unfolding note with_scope when put_scope ◌▷◌
    withdrawn_demand id =
        note "DemandWithdrawn" id
        ▷ with_scope id
            (λ s. when (not (is_terminal s.state)) (put_scope id (record s { state = withdrawn })))

    unfoldable pub react : EventKind → Event → Act H S
    unfolding log_touchdown log_over_target exposed deduced not_deduced withdrawn_demand note
    react touchdown_published e = log_touchdown e
    react touchdown_consumed e = log_touchdown e
    react touchdown_discarded e = log_touchdown e
    react demanded_touchdown_over_target e = log_over_target e
    react occurrence_exposed e = exposed e.occ
    react deduction_committed e = deduced e
    react deduction_failed e = not_deduced e
    react demand_withdrawn e = withdrawn_demand e.occ
    react kind e = note (kind_text kind) e.occ

    -- handle
    unfoldable pub handle : List Event → Act H S
    unfolding react each
    handle = each (λ e. react e.kind e)

    -- handle of what the Carousel drains.
    unfoldable pub drain_events : Act H S
    unfolding handle asking tell drain ◌▷◌
    drain_events = asking (λ r. (drain r.car).0) (λ evs. tell set.car_cfg Calls.drains ▷ handle evs)
