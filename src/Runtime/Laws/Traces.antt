-- ===== src/Runtime/Laws/Traces.antt =====
-- The trace is append-only, and numbers its events from 1.
use subsea_cable_runtime.Base.{ℕ, ◌+◌, ◌≡◌, List, some, length, get_elem?, get_elem?-snoc, arith}
use subsea_cable_runtime.Runtime.Trace.{TraceEvent, add_event}
use subsea_cable_runtime.Runtime.State.{Run, Settings}
use subsea_cable_runtime.Runtime.Operations.{Operation, operate_all}
use subsea_cable_runtime.Runtime.Moves.{
  Mode, Extends, as_it_is, event_more, Move, logs, calls, puts, resolves, pushes, pops, marks,
  lands, launches, finishes, counts, hosts, gates, exhausts, Evolves, here, next,
}
use subsea_cable_runtime.Runtime.Moves.Starting.{IsGated}
use subsea_cable_runtime.Runtime.Laws.Refinement.{operations-Evolves}

pub record IsNumbered (t : List TraceEvent) : Type 0 where
  pub numbered : (i : ℕ) (e : TraceEvent) → get_elem? t i ≡ some e → e.seq ≡ i + 1

Extends-trans : {t u v : List TraceEvent} → Extends t u → Extends u v → Extends t v
Extends-trans a as_it_is = a
Extends-trans a (event_more e b) = event_more e (Extends-trans a b)

module _ {H S : Type 0} {set : Settings H S} {m : Mode} where
  Move-Extends : {t u : Run H S} → Move set m t u → Extends t.trace u.trace
  Move-Extends (logs e x) = rw x (event_more e as_it_is)
  Move-Extends (calls c q x) = rw x as_it_is
  Move-Extends (puts j s f x) = rw x as_it_is
  Move-Extends (resolves j s a b x) = rw x as_it_is
  Move-Extends (pushes it a x) = rw x as_it_is
  Move-Extends (pops it rest o a x) = rw x as_it_is
  Move-Extends (marks id at a x) = rw x as_it_is
  Move-Extends (lands id x) = rw x as_it_is
  Move-Extends (launches at o b q x) = rw x as_it_is
  Move-Extends (finishes a b v w x) = rw x as_it_is
  Move-Extends (counts w n x) = rw x as_it_is
  Move-Extends (hosts h x) = rw x as_it_is
  Move-Extends (gates h g a x) = rw x a
  Move-Extends (exhausts x) = rw x as_it_is

  Evolves-Extends : {t u : Run H S} → Evolves set m t u → Extends t.trace u.trace
  Evolves-Extends here = as_it_is
  Evolves-Extends (next a mv) = Extends-trans (Evolves-Extends a) (Move-Extends mv)

add_event-IsNumbered :
    (e : TraceEvent) (t : List TraceEvent) → IsNumbered t → IsNumbered (add_event e t)
unfolding add_event
add_event-IsNumbered e t h = record {
  numbered = λ i x g.
      ground (arith, get_elem?-snoc t (record e { seq = length t + 1 }) i, h.numbered i x, g);
}

pub Extends-IsNumbered : {t u : List TraceEvent} → Extends t u → IsNumbered t → IsNumbered u
Extends-IsNumbered as_it_is h = h
Extends-IsNumbered (event_more e a) h = add_event-IsNumbered e _ (Extends-IsNumbered a h)

module _ {H S : Type 0} (set : Settings H S) (gated : IsGated set.port) (xs : List Operation)
    (r : Run H S) where
  -- Whatever calls (Step, Advance, Cancel, Demand, CancelScope, SetPrefetch) are made on a run
  -- whose Host reaches the call-site counter only through its gateway, the trace is only
  -- extended, and its events stay numbered from 1 by their places.
  pub trace_appended :
      IsNumbered r.trace
      → Extends r.trace (operate_all set xs r).trace × IsNumbered (operate_all set xs r).trace
  trace_appended h =
      let more = Evolves-Extends (operations-Evolves set gated xs r) in
      (more, Extends-IsNumbered more h)
