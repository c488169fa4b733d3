-- ===== src/Runtime/Moves/Reports.antt =====
-- The moves of handle: what the Runtime does about the events of the Carousel.
use subsea_cable_runtime.Base.{
  ℕ, ◌≡◌, refl, Bool, true, false, not, Option, none, some, String, List, [], ◌∷◌, string_eq, get,
  Bool-cases, inl, inr, arith, is_some,
}
use subsea_cable_runtime.Diag.{Res, ok, err}
use subsea_cable_runtime.Carousel.{Event, EventKind, Occurrence, PolicyRef}
use subsea_cable_runtime.Runtime.Policy.{BoundPolicy, bind}
use subsea_cable_runtime.Carousel
use subsea_cable_runtime.Runtime.Policy.{is_terminal}
use subsea_cable_runtime.Runtime.State.{Run, Scope, Settings}
use subsea_cable_runtime.Runtime.Act.{Act, after, ◌▷◌, when, put_scope, with_scope, scope_of}
use subsea_cable_runtime.Runtime.Actions.{Settle, open_once}
use subsea_cable_runtime.Runtime.Events.{
  fresh_scope, ensure_scope, log_touchdown, log_over_target, open_when_open, attach, attach_all,
  exposed, deduced, not_deduced, withdrawn_demand, react, handle, drain_events,
}
use subsea_cable_runtime.Runtime.Moves.{Mode, is_loud, exposes, puts}
use subsea_cable_runtime.Runtime.Moves.Acts.{
  Safe, plain, Holds-Safe, each-Safe, note-Safe, safe_acts, put_scope-From, one, From, acts_from,
}
use subsea_cable_runtime.Runtime.Moves.Policies.{IsSettling, open_once-Holds}

pub not-true : (b : Bool) → not b ≡ true → b ≡ false
not-true b h = ground arith

pub not-is_some {ℓ} : {A : Type ℓ} (o : Option A) → not (is_some o) ≡ true → o ≡ none
not-is_some none h = refl
not-is_some (some a) h = cc

-- A new scope is not terminal.
fresh_scope-open : (S : Type 0) (o : Occurrence) → is_terminal (fresh_scope {S = S} o).state ≡ false
unfolding fresh_scope is_terminal
fresh_scope-open S o = elim (Bool-cases (Carousel.deducible o)) [
  | inl e ↦ rw e refl
  | inr e ↦ rw e refl
]

module _ {H S : Type 0} {set : Settings H S} {m : Mode} (loud : is_loud m ≡ true) where
  -- A change of a scope that is not terminal, and what follows.
  pub alter-Safe :
      (id : String) (f : Scope S → Scope S) {b : Act H S}
      → Safe set m b
      → Safe set m (with_scope id (λ s. when (not (is_terminal s.state)) (put_scope id (f s) ▷ b)))
  alter-Safe id f hb = search (acts_from, hb, put_scope-From, loud, not-true) depth 8

  change-Safe :
      (id : String) (f : Scope S → Scope S)
      → Safe set m (with_scope id (λ s. when (not (is_terminal s.state)) (put_scope id (f s))))
  change-Safe id f = search (acts_from, put_scope-From, loud, not-true) depth 8

  expose-From :
      {r : Run H S} (id : String) (o : Occurrence)
      → not (is_some (scope_of id r)) ≡ true
      → From set m r (put_scope id (fresh_scope o))
  unfolding put_scope after scope_of
  expose-From {r} id o missing = record {
    moves = one (
        puts id (fresh_scope o)
          (exposes loud (not-is_some (get id r.scopes) missing) (fresh_scope-open S o)) refl);
  }

  pub ensure_scope-Safe : (id : String) → Safe set m (ensure_scope id)
  unfolding ensure_scope
  ensure_scope-Safe id = search (acts_from, expose-From) depth 8

  module _ {settle : Settle H S} (h : IsSettling set m settle) where
    open_once-Safe : (id : String) → Safe set m (open_once settle id)
    open_once-Safe id = Holds-Safe (open_once-Holds {g = plain m} h id)

    open_when_open-Safe : (id : String) → Safe set m (open_when_open set settle id)
    unfolding open_when_open
    open_when_open-Safe id = search (safe_acts, open_once-Safe)

    attach-Safe :
        (id : String) (bound : Res (List (BoundPolicy S))) → Safe set m (attach set settle id bound)
    unfolding attach
    attach-Safe id (err e) = search (safe_acts, h.settles)
    attach-Safe id (ok bound) = search (safe_acts, open_when_open-Safe)

    attach_all-Safe :
        (id : String) (o : Occurrence) (now : ℕ) (ps : List PolicyRef)
        → Safe set m (attach_all set settle id o now ps)
    unfolding attach_all
    attach_all-Safe id o now [] = open_when_open-Safe id
    attach_all-Safe id o now (p ∷ ps) = attach-Safe id (bind set.registry o now)

    exposed-Safe : (id : String) → Safe set m (exposed set settle id)
    unfolding exposed
    exposed-Safe id = search (safe_acts, ensure_scope-Safe, attach_all-Safe) depth 9

    deduced-Safe : (e : Event) → Safe set m (deduced set settle e)
    unfolding deduced
    deduced-Safe e = search (safe_acts, alter-Safe, open_once-Safe)

    not_deduced-Safe : (e : Event) → Safe set m (not_deduced set settle e)
    unfolding not_deduced
    not_deduced-Safe e = search (safe_acts, h.settles) depth 9

    withdrawn_demand-Safe : (id : String) → Safe set m (withdrawn_demand set settle id)
    unfolding withdrawn_demand
    withdrawn_demand-Safe id = search (safe_acts, change-Safe)

    react-Safe : (kind : EventKind) (e : Event) → Safe set m (react set settle kind e)
    unfolding react log_touchdown log_over_target
    react-Safe Carousel.touchdown_published e = search safe_acts
    react-Safe Carousel.touchdown_consumed e = search safe_acts
    react-Safe Carousel.touchdown_discarded e = search safe_acts
    react-Safe Carousel.demanded_touchdown_over_target e = search safe_acts
    react-Safe Carousel.occurrence_exposed e = exposed-Safe e.occ
    react-Safe Carousel.deduction_committed e = deduced-Safe e
    react-Safe Carousel.deduction_failed e = not_deduced-Safe e
    react-Safe Carousel.demand_withdrawn e = withdrawn_demand-Safe e.occ
    react-Safe Carousel.alias_resolved e = note-Safe _ _
    react-Safe Carousel.deduction_blocked e = note-Safe _ _
    react-Safe Carousel.demand_observed e = note-Safe _ _
    react-Safe Carousel.prefetch_reconfigured e = note-Safe _ _
    react-Safe Carousel.prefetch_target_reached e = note-Safe _ _
    react-Safe Carousel.prefetch_blocked e = note-Safe _ _
    react-Safe Carousel.prefetch_exhausted e = note-Safe _ _
    react-Safe Carousel.atomic_prefetch_overshoot e = note-Safe _ _

    pub handle-Safe : (evs : List Event) → Safe set m (handle set settle evs)
    unfolding handle
    handle-Safe evs = each-Safe evs (λ e. react-Safe e.kind e)

    pub drain_events-Safe : Safe set m (drain_events set settle)
    unfolding drain_events
    drain_events-Safe = search (safe_acts, handle-Safe)
