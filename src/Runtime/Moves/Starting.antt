-- ===== src/Runtime/Moves/Starting.antt =====
-- The moves of start, and of a call of the Host. A function leaf reaches the state of the run
-- through the Anchor gateway only.
use subsea_cable_runtime.Base.{
  ℕ, pos, zero, suc, ◌<◌, ◌≡◌, refl, ◌∙◌, Option, String, List, length, arith, string_eq,
  Bool-cases, inl, inr, false,
}
use subsea_cable_runtime.Diag.{Span}
use subsea_cable_runtime.Value.{Value}
use subsea_cable_runtime.Expr.{Env, AnchorCaller}
use subsea_cable_runtime.Carousel.{Occurrence, Func}
use subsea_cable_runtime.Carousel.{evaluation_instance_id}
use subsea_cable_runtime.Carousel.Calls
use subsea_cable_runtime.Carousel.Calls.{step}
use subsea_cable_runtime.Carousel.Touchdown.{AckResult, authorizes, consume_touchdown}
use subsea_cable_runtime.Carousel.Window.Authorization.{
  ConsumedBy, step-ConsumedBy, authorizes-ConsumedBy,
}
use subsea_cable_runtime.Runtime.Events.{drain_events}
use subsea_cable_runtime.Runtime.Scopes.{settle}
use subsea_cable_runtime.Host.{LeafContext, HostPort}
use subsea_cable_runtime.Runtime.Trace.{TraceEvent, trace_event, add}
use subsea_cable_runtime.Runtime.State.{Run, Scope, Settings, Gate, completion, in_flight, due}
use subsea_cable_runtime.Runtime.Act.{after, ◌▷◌, asking, push, tell, choose}
use subsea_cable_runtime.Runtime.Launch.{
  gateway, call_host, after_host, enter_flight, launch, abort_attempt, consume_first, start_attempt,
  start, is_function, ticks_of, leaf_context,
}
use subsea_cable_runtime.Runtime.Moves.{
  Mode, inner, outer, is_outer, Extends, as_it_is, event_more, IsAuthorized, Move, logs, calls,
  puts, resolves, pushes, pops, marks, lands, launches, finishes, counts, hosts, gates, exhausts,
  Evolves, here, next,
}
use subsea_cable_runtime.Runtime.Moves.Acts.{
  Safe, From, Holds, Regime, tell-Safe, Holds-From, Evolves-trans, Evolves-louder, one, safe_acts,
  then-Holds, Holds-then, then-From, asking-From, asking-Safe, push-Safe, every_run, edit-Safe,
  note-Safe, Safe-Holds,
}
use subsea_cable_runtime.Runtime.Moves.Policies.{IsSettling}
use subsea_cable_runtime.Runtime.Moves.Reports.{drain_events-Safe}
use subsea_cable_runtime.Runtime.Moves.Flight.{Evolves-flight_le, Evolves-same_now}
use subsea_cable_runtime.Runtime.Moves.Settling.{settle-IsSettling}

-- A Host that evaluates a function touches the gate by calls of its gateway only: what these keep,
-- the evaluation keeps.
pub record IsGated {H : Type 0} (port : HostPort H Gate) : Type 1 where
  pub through :
      (P : Gate → Type 0) (ctx : LeafContext) (fn : Option Func) (env : Env)
      (call : AnchorCaller (H × Gate)) (s : H × Gate)
      → ((ident : String) (at : Span) (args : List Value) (t : H × Gate)
          → P t.1
          → P (call ident at args t).1.1)
      → P s.1
      → P (port.evaluate_function ctx fn env call s).1.1

-- The runs that have a place for an attempt, at a time.
pub record HasPlace {H S : Type 0} (set : Settings H S) (now : ℕ) (r : Run H S) : Type 0 where
  pub place : length r.inflight < set.concurrency
  pub time : r.now ≡ now

module _ {H S : Type 0} {set : Settings H S} where
  pub from_inner : {r t : Run H S} → Evolves set inner r t → Evolves set outer r t
  from_inner e = Evolves-louder (λ q. refl) (λ q. refl) (λ q. cc q) e

  pub HasPlace-keeps :
      {now : ℕ} {r t : Run H S} → Evolves set inner r t → HasPlace set now r → HasPlace set now t
  HasPlace-keeps e h =
      let fewer = Evolves-flight_le refl e in
      let place = h.place in
      record { place = omega (arith, fewer, place); time = Evolves-same_now refl e ∙ h.time }

  abbrev pub place_regime : ℕ → Regime set
  place_regime now = record {
    base = inner;
    mode = outer;
    Pre = HasPlace set now;
    below = λ e. from_inner e;
    keeps = λ e h. HasPlace-keeps e h;
  }

-- The runs that have a place for an attempt which may call the Host.
module _ {H S : Type 0} {set : Settings H S} where
  Move-ConsumedBy :
      {m : Mode} (occ attempt : String) {t u : Run H S}
      → is_outer m ≡ false
      → Move set m t u
      → ConsumedBy occ attempt t.car
      → ConsumedBy occ attempt u.car
  Move-ConsumedBy occ attempt small (logs e x) h = rw x h
  Move-ConsumedBy occ attempt {t} small (calls c (inl b) x) h =
      rw x (step-ConsumedBy set.car_cfg occ attempt t.car c b h)
  Move-ConsumedBy occ attempt small (calls c (inr o) x) h = cc (o, small)
  Move-ConsumedBy occ attempt small (puts j s f x) h = rw x h
  Move-ConsumedBy occ attempt small (resolves j s a b x) h = rw x h
  Move-ConsumedBy occ attempt small (pushes it a x) h = rw x h
  Move-ConsumedBy occ attempt small (pops it rest o a x) h = rw x h
  Move-ConsumedBy occ attempt small (marks id at a x) h = rw x h
  Move-ConsumedBy occ attempt small (lands id x) h = rw x h
  Move-ConsumedBy occ attempt small (launches at o b q x) h = rw x h
  Move-ConsumedBy occ attempt small (finishes a b v w x) h = rw x h
  Move-ConsumedBy occ attempt small (counts w n x) h = rw x h
  Move-ConsumedBy occ attempt small (hosts k x) h = rw x h
  Move-ConsumedBy occ attempt small (gates k g a x) h = rw x h
  Move-ConsumedBy occ attempt small (exhausts x) h = rw x h

  Evolves-ConsumedBy :
      (occ attempt : String) {t u : Run H S}
      → Evolves set inner t u
      → ConsumedBy occ attempt t.car
      → ConsumedBy occ attempt u.car
  Evolves-ConsumedBy occ attempt here h = h
  Evolves-ConsumedBy occ attempt (next a mv) h =
      Move-ConsumedBy occ attempt refl mv (Evolves-ConsumedBy occ attempt a h)

  IsAuthorized-keeps :
      (occ attempt : String) (n : ℕ) {t u : Run H S}
      → Evolves set inner t u
      → IsAuthorized attempt occ n t.car
      → IsAuthorized attempt occ n u.car
  IsAuthorized-keeps occ attempt n e (inl later) = inl later
  IsAuthorized-keeps occ attempt n e (inr h) = inr (Evolves-ConsumedBy occ attempt e h)

  abbrev flight_regime : String → String → ℕ → ℕ → Regime set
  flight_regime attempt occ n now = record {
    base = inner;
    mode = outer;
    Pre = λ r. HasPlace set now r × IsAuthorized attempt occ n r.car;
    below = λ e. from_inner e;
    keeps = λ e h. (HasPlace-keeps e h.0, IsAuthorized-keeps occ attempt n e h.1);
  }

-- The runs at a time.
module _ {H S : Type 0} {set : Settings H S} where
  abbrev pub time_regime : ℕ → Regime set
  time_regime now = record {
    base = inner;
    mode = outer;
    Pre = λ r. r.now ≡ now;
    below = λ e. from_inner e;
    keeps = λ e h. Evolves-same_now refl e ∙ h;
  }

module _ {H S : Type 0} (set : Settings H S) where
  gateway-Extends :
      (t : List TraceEvent) (now : ℕ) (ctx : LeafContext) (ident : String) (at : Span)
      (args : List Value) (s : H × Gate)
      → Extends t s.1.log
      → Extends t (gateway set now ctx ident at args s).1.1.log
  unfolding gateway add
  gateway-Extends t now ctx ident at args (h, g) e =
      event_more (trace_event now "AnchorGatewayCall" ctx.occurrence) e

  module _ (gated : IsGated set.port) where
    call_host-Extends :
        (o : Occurrence) (ctx : LeafContext) (r : Run H S)
        → Extends r.trace (call_host set o ctx r).1.1.log
    unfolding call_host
    call_host-Extends o ctx r = elim (Bool-cases (is_function o.kind)) [
      | inl e ↦ rw e (
          gated.through (λ g. Extends r.trace g.log) ctx o.fn o.fn_env (gateway set r.now ctx) _
            (gateway-Extends r.trace r.now ctx) as_it_is)
      | inr e ↦ rw e as_it_is
    ]

    after_host-From :
        {r : Run H S} (s : H × Gate) → Extends r.trace s.1.log → From set outer r (after_host s)
    unfolding after_host after
    after_host-From (h, g) e = record { moves = one (gates h g e refl) }

    reply-Safe :
        (attempt : String) (o : Occurrence) (ctx : LeafContext)
        → Safe set outer (
            asking (call_host set o ctx) (λ reply.
              after_host reply.1
              ▷ asking
                  (λ r. r.now)
                  (λ now.
                    push
                      (due now (pos (ticks_of reply.0.ticks)))
                      o.id
                      (completion attempt reply.0))))
    reply-Safe attempt o ctx =
        search
          (
            every_run, asking-From, then-From, after_host-From, call_host-Extends, asking-Safe,
            push-Safe,
          )
          depth 8

    enter_flight-Holds :
        (attempt id : String) (now n : ℕ)
        → Holds set (flight_regime attempt id n now) (enter_flight attempt id n)
    unfolding enter_flight after
    enter_flight-Holds attempt id now n = record {
      moves = λ r p. one (
          launches (record { id = attempt; scope = id; number = n; cancelled = false }) refl
            p.0.place p.1 refl);
    }

    launch-Holds :
        (attempt : String) (now n : ℕ) (o : Occurrence)
        → Holds set (flight_regime attempt o.id n now) (launch set attempt n o)
    unfolding launch
    launch-Holds attempt now n o =
        Holds-then
          (Holds-then
            (Holds-then
              (then-Holds
                (edit-Safe o.id (λ s. record s { attempts = n }) (λ s. (refl, refl, refl)))
                (enter_flight-Holds attempt o.id now n))
              (edit-Safe o.id (λ s. record s { leaf = in_flight }) (λ s. (refl, refl, refl))))
            (note-Safe "EvaluationStarted" o.id))
          (reply-Safe attempt o (leaf_context set o attempt n))

    abort_attempt-Safe :
        (attempt : String) (o : Occurrence) (res : AckResult)
        → Safe set inner (abort_attempt set attempt o res)
    unfolding abort_attempt
    abort_attempt-Safe attempt o res =
        let settling : IsSettling set inner _ = settle-IsSettling set refl in
        search (safe_acts, settling.settles) depth 8

    -- After the consume, an attempt that it authorized goes on, and any other is aborted.
    answered-From :
        (attempt : String) (now : ℕ) (o : Occurrence) (r : Run H S)
        → HasPlace set now r
        → From set outer r (
            tell set.car_cfg (Calls.consumes o.id (evaluation_instance_id set.car_cfg o) attempt)
            ▷ drain_events set (settle set)
            ▷ choose
                (authorizes
                  (consume_touchdown set.car_cfg o.id
                    (evaluation_instance_id set.car_cfg o)
                    attempt
                    r.car).0.0)
                (launch set attempt 1 o)
                (abort_attempt set attempt o
                  (consume_touchdown set.car_cfg o.id
                    (evaluation_instance_id set.car_cfg o)
                    attempt
                    r.car).0.0))
    unfolding ◌▷◌ after tell choose step
    answered-From attempt now o r p =
        let inst = evaluation_instance_id set.car_cfg o in
        let settling : IsSettling set inner (settle set) = settle-IsSettling set refl in
        let asked = Calls.consumes o.id inst attempt in
        let told : Evolves set inner r (after (tell set.car_cfg asked) r) =
          (tell-Safe asked refl).moves r in
        elim (Bool-cases (authorizes (consume_touchdown set.car_cfg o.id inst attempt r.car).0.0)) [
          | inl allowed ↦ rw allowed (record {
            moves =
                Evolves-trans (from_inner told)
                  (Holds-From {g = flight_regime attempt o.id 1 now}
                    (
                      HasPlace-keeps told p,
                      inr (authorizes-ConsumedBy set.car_cfg o.id inst attempt r.car allowed),
                    )
                    (then-Holds (drain_events-Safe refl settling)
                      (launch-Holds attempt now 1 o))).moves;
          })
          | inr barred ↦ rw barred (record {
            moves =
                Evolves-trans (from_inner told)
                  (Holds-From {g = place_regime now} (HasPlace-keeps told p) (
                    then-Holds (drain_events-Safe refl settling)
                      (Safe-Holds {g = place_regime now} (abort_attempt-Safe attempt o _)))).moves;
          })
        ]

    consume_first-Holds :
        (attempt : String) (now : ℕ) (o : Occurrence)
        → Holds set (place_regime now) (consume_first set attempt o)
    unfolding consume_first asking after
    consume_first-Holds attempt now o = record {
      moves = λ r p. (answered-From attempt now o r p).moves;
    }

    start_attempt-Holds :
        (n now : ℕ) (o : Occurrence) → Holds set (place_regime now) (start_attempt set n o)
    unfolding start_attempt
    start_attempt-Holds zero now o = consume_first-Holds _ now o
    start_attempt-Holds (suc n) now o = record {
      moves = λ r p. (launch-Holds _ now _ o).moves r (p, inl (omega arith));
    }

    pub start-Holds :
        (s : Scope S) (now : ℕ) (o : Occurrence) → Holds set (place_regime now) (start set s o)
    unfolding start
    start-Holds s now o = start_attempt-Holds s.attempts now o
