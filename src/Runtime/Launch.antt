-- ===== src/Runtime/Launch.antt =====
-- start of runtime/runtime.go, the call of the Host, and the Anchor gateway.
use subsea_cable_runtime.Base.{
  ℕ, zero, suc, Bool, true, false, not, Option, none, some, String, [], ◌∷◌, string_eq, put,
  if◌then◌else◌, ℤ, pos, negsuc, show_ℕ, ◌<>◌,
}
use subsea_cable_runtime.Diag.{Span, Diagnostic, Err, host, policy, new, Res, ok, err}
use subsea_cable_runtime.Value.{Output, no_output, digest}
use subsea_cable_runtime.Expr.{AnchorCaller}
use subsea_cable_runtime.Carousel.{Occurrence, Kind, kind_function, evaluation_instance_id}
use subsea_cable_runtime.Carousel.Calls
use subsea_cable_runtime.Carousel.Touchdown.{
  AckResult, ack_consumed, ack_consumed_replay, ack_already_consumed, ack_invalid_attempt,
  ack_discarded, ack_already_discarded, ack_mismatch, ack_unknown, authorizes, consume_touchdown,
}
use subsea_cable_runtime.Host.{LeafContext, Status, Outcome}
use subsea_cable_runtime.Host
use subsea_cable_runtime.Runtime.Trace.{trace_event, add}
use subsea_cable_runtime.Runtime.Policy.{ScopeState, is_terminal, before_attempt}
use subsea_cable_runtime.Runtime.Policy
use subsea_cable_runtime.Runtime.State.{Run, Scope, in_flight, Settings, Gate, completion, due}
use subsea_cable_runtime.Runtime.Act.{
  act, Act, ◌▷◌, asking, when, choose, with_scope, log, note, edit, tell, push,
}
use subsea_cable_runtime.Runtime.Events.{drain_events}
use subsea_cable_runtime.Runtime.Scopes.{settle}

abbrev pub ack_text : AckResult → String
ack_text ack_consumed = "consumed"
ack_text ack_consumed_replay = "consumed-replayed"
ack_text ack_already_consumed = "already-consumed"
ack_text ack_invalid_attempt = "invalid-attempt"
ack_text ack_discarded = "discarded"
ack_text ack_already_discarded = "already-discarded"
ack_text ack_mismatch = "mismatch"
ack_text ack_unknown = "unknown"

abbrev pub is_function : Kind → Bool
is_function kind_function = true
is_function _ = false

-- A negative number of ticks counts as none.
abbrev pub ticks_of : ℤ → ℕ
ticks_of (pos n) = n
ticks_of (negsuc n) = 0

module _ {H S : Type 0} where
  unfoldable pub after_host : H × Gate → Act H S
  after_host (h, g) = act (λ r. record r { host = h; trace = g.log; call_sites = g.call_sites })

  unfoldable pub enter_flight : String → String → ℕ → Act H S
  enter_flight attempt id n = act (λ r. record r {
    inflight =
        put attempt (record { id = attempt; scope = id; number = n; cancelled = false }) r.inflight;
  })

module _ {H S : Type 0} (set : Settings H S) where
  -- The outcome of a call at the gateway.
  gateway_error : Span → Option Diagnostic → Err
  gateway_error at (some d) = Err.diagnostic d
  gateway_error at none = Err.diagnostic (new "AnchorFailed" host (some at))

  gateway_outcome : Span → Status → Outcome → Res Output
  unfolding gateway_error
  gateway_outcome at Host.succeeded out = ok out.result
  gateway_outcome at st out = err (gateway_error at out.diag)

  -- gateway
  unfoldable pub gateway : ℕ → LeafContext → AnchorCaller (H × Gate)
  unfolding gateway_outcome add
  gateway now ctx ident at args (h, g) =
      let (out, h') = set.port.invoke_anchor ctx ident args h in
      (
        gateway_outcome at out.status out,
        (
          h',
          record {
            log = add now "AnchorGatewayCall" ctx.occurrence g.log;
            call_sites = suc g.call_sites;
          },
        ),
      )

  pub leaf_context : Occurrence → String → ℕ → LeafContext
  leaf_context o attempt n = record {
    run_id = set.car_cfg.run_id;
    occurrence = o.id;
    artifact = o.artifact;
    leaf = o.leaf;
    lineages = o.lineage ∷ [];
    attempt_id = attempt;
    attempt_no = n;
    args_digest = digest set.car_cfg.sha256 o.args;
  }

  -- The call of the Host.
  unfoldable pub call_host : Occurrence → LeafContext → Run H S → Outcome × (H × Gate)
  unfolding gateway
  call_host o ctx r =
      let g : Gate = record { log = r.trace; call_sites = r.call_sites } in
      let fn_reply = set.port.evaluate_function ctx o.fn o.fn_env (gateway r.now ctx) (r.host, g) in
      let (out, h) = set.port.invoke_anchor ctx o.leaf o.args r.host in
      if is_function o.kind then fn_reply else (out, (h, g))

  -- start, from the attempt record on.
  unfoldable pub launch : String → ℕ → Occurrence → Act H S
  unfolding edit enter_flight note asking call_host leaf_context after_host push ◌▷◌
  launch attempt n o =
      edit o.id (λ s. record s { attempts = n })
      ▷ enter_flight attempt o.id n
      ▷ edit o.id (λ s. record s { leaf = in_flight })
      ▷ note "EvaluationStarted" o.id
      ▷ asking (call_host o (leaf_context o attempt n)) (λ reply.
        after_host reply.1
        ▷ asking (λ r. r.now)
            (λ now.
              push (due now (pos (ticks_of reply.0.ticks))) o.id (completion attempt reply.0)))

  unfoldable pub abort_attempt : String → Occurrence → AckResult → Act H S
  unfolding asking log with_scope when settle ◌▷◌
  abort_attempt attempt o res =
      asking (λ r. r.now)
        (λ now. log (record (trace_event now "AttemptAborted" o.id) {
          run_id = set.car_cfg.run_id;
          attempt = attempt;
          reason = ack_text res;
        }))
      ▷ with_scope o.id (λ s. when (not (is_terminal s.state)) (
          settle set o.id Policy.failed no_output (
            some
              (record (new "TouchdownAcknowledgementRejected" policy none) { occurrence = o.id }))))

  -- The first dispatch consumes the Touchdown; only an authorizing answer lets it go on.
  unfoldable pub consume_first : String → Occurrence → Act H S
  unfolding asking tell drain_events choose launch abort_attempt consume_touchdown
      evaluation_instance_id settle ◌▷◌
  consume_first attempt o =
      let inst = evaluation_instance_id set.car_cfg o in
      asking (λ r. (consume_touchdown set.car_cfg o.id inst attempt r.car).0.0)
        (λ res.
          tell set.car_cfg (Calls.consumes o.id inst attempt)
          ▷ drain_events set (settle set)
          ▷ choose (authorizes res) (launch attempt 1 o) (abort_attempt attempt o res))

  attempt_id : String → ℕ → String
  attempt_id id n = set.car_cfg.run_id <> ("/" <> (id <> ("#" <> show_ℕ n)))

  unfoldable pub start_attempt : ℕ → Occurrence → Act H S
  unfolding attempt_id consume_first launch
  start_attempt zero o = consume_first (attempt_id o.id 1) o
  start_attempt (suc n) o = launch (attempt_id o.id (suc (suc n))) (suc (suc n)) o

  -- start, of a scope with its number of attempts before.
  unfoldable pub start : Scope S → Occurrence → Act H S
  unfolding start_attempt
  start s o = start_attempt s.attempts o
