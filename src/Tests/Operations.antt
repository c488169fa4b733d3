-- ===== src/Tests/Operations.antt =====
-- Calls on a run that is half done: the scripted Host, a leaf that is satisfied, and an
-- item on the timeline.
use subsea_cable_runtime.Base.{
  ◌≡◌, ◌≤◌, refl, true, false, Bool-cases, inl, inr, sym, ◌==◌, none, some, List, [], ◌∷◌, pos, get,
  string_eq, arith, length,
}
use subsea_cable_runtime.Value.{Output, output, string}
use subsea_cable_runtime.Carousel.{Occurrence}
use subsea_cable_runtime.Carousel.{new_carousel}
use subsea_cable_runtime.Host.{HostPort, succeeded}
use subsea_cable_runtime.Host.Scripted.{Scripted, new_scripted, set_ticks, scripted_port}
use subsea_cable_runtime.Runtime.Policy.{satisfied, open_scope, bind, is_terminal}
use subsea_cable_runtime.Runtime.Policy.Binding.{Binding, bind-Binding}
use subsea_cable_runtime.Runtime.State.{
  Run, Settings, Gate, Scope, scope_literal, demand_ready, backoff, Result,
}
use subsea_cable_runtime.Runtime.Operations.{
  Operation, steps, advances, cancels, requests, operate_all,
}
use subsea_cable_runtime.Runtime.Act.{after}
use subsea_cable_runtime.Carousel.{register}
use subsea_cable_runtime.Base.{put}
use subsea_cable_runtime.Runtime.Reactor.{is_done, cancel}
use subsea_cable_runtime.Runtime.Moves.{whole, Extends, Evolves}
use subsea_cable_runtime.Runtime.Moves.Outcomes.{HasOutcome}
use subsea_cable_runtime.Runtime.Moves.Starting.{IsGated}
use subsea_cable_runtime.Runtime.Moves.Scripted.{scripted_port-IsGated}
use subsea_cable_runtime.Runtime.Laws.Refinement.{operations-Evolves}
use subsea_cable_runtime.Runtime.Laws.Outcomes.{settled_forever, result_forever}
use subsea_cable_runtime.Runtime.Laws.Values.{IsBacked, operations-IsBacked, written_once}
use subsea_cable_runtime.Runtime.Laws.Traces.{IsNumbered, trace_appended}
use subsea_cable_runtime.Runtime.Laws.Bounds.{flight_bound}
use subsea_cable_runtime.Runtime.Laws.Budget.{IsWithin, step_budget}
use subsea_cable_runtime.Runtime.Laws.Proposals.{Earned, propose-Earned}
use subsea_cable_runtime.Runtime.Scopes.{propose}
use subsea_cable_runtime.Carousel.{kind_serial}
use subsea_cable_runtime.Runtime.Laws.Ending.{cancel_ends}
use subsea_cable_runtime.Tests.Data.{host, here, config, root, rooted, routed_goal}

abbrev scripted : HostPort Scripted Gate
scripted = scripted_port host 8

scripted-IsGated : IsGated scripted
scripted-IsGated = scripted_port-IsGated host 8

abbrev settings : Settings Scripted Unit
settings = record {
  car_cfg = config;
  concurrency = 2;
  mode = demand_ready;
  registry = record { interps = []; pairs = [] };
  withhold = none;
  reattempt = none;
  port = scripted;
  max_steps = 3;
  rounds = 4;
}

abbrev pong : Output
pong = output (string "pong")

abbrev leaf_done : Scope Unit
leaf_done = record (scope_literal "r.d" satisfied) { out = pong }

abbrev halfway : Run Scripted Unit
halfway = record {
  car = rooted;
  scopes = ("r", scope_literal "r" open_scope) ∷ ("r.d", leaf_done) ∷ [];
  values = ("r.d", pong) ∷ [];
  trace = [];
  now = 3;
  tl = record { at = pos 5; seq = 1; scope = "r"; kind = backoff } ∷ [];
  tl_seq = 1;
  inflight = [];
  result = none;
  steps = 1;
  call_sites = 0;
  host = set_ticks "ping" (pos 2) new_scripted;
  exhausted = false;
}

abbrev ended : Result
ended = record { status = succeeded; out = pong; diag = none; steps = 1; time = 3 }

abbrev finished_run : Run Scripted Unit
finished_run = record halfway { result = some ended }

abbrev plan : List Operation
plan = steps ∷ requests "r" ∷ advances ∷ cancels ∷ []

halfway-IsBacked : IsBacked halfway
unfolding get
halfway-IsBacked = record {
  backed = λ id v g. elim (Bool-cases ("r.d" == id)) [
    | inl e ↦
        let same : "r.d" ≡ id = (string_eq.beq_iff "r.d" id).0 e in
        record {
          scope = leaf_done;
          there = rw (sym same) refl;
          satisfies = refl;
          exports = ground (arith, e, g);
        }
    | inr e ↦ ground (arith, e, g)
  ];
}

settled_forever_example : HasOutcome "r.d" leaf_done (operate_all settings plan halfway).scopes
unfolding get is_terminal
settled_forever_example =
    settled_forever settings scripted-IsGated plan halfway "r.d" leaf_done refl refl

flight_bound_example : length (operate_all settings plan halfway).inflight ≤ 2
flight_bound_example = flight_bound settings scripted-IsGated plan halfway (omega arith)

operations-Evolves_example : Evolves settings whole halfway (operate_all settings plan halfway)
operations-Evolves_example = operations-Evolves settings scripted-IsGated plan halfway

written_once_example : get "r.d" (operate_all settings plan halfway).values ≡ some pong
unfolding get
written_once_example =
    written_once settings scripted-IsGated plan halfway halfway-IsBacked "r.d" pong refl

abbrev serial_done : List (Scope Unit)
serial_done = scope_literal "r.d.0" satisfied ∷ leaf_done ∷ []

propose-Earned_example : Earned kind_serial serial_done pong
unfolding propose
propose-Earned_example = propose-Earned kind_serial [] serial_done pong none refl

step_budget_example : IsWithin settings.max_steps (operate_all settings plan halfway)
step_budget_example = step_budget settings scripted-IsGated plan halfway (inl (omega arith))

cancel_ends_example : is_done (after (cancel settings) halfway) ≡ true
unfolding get register new_carousel put is_terminal
cancel_ends_example =
    cancel_ends settings halfway (scope_literal "r" open_scope) root refl refl refl refl

operations-IsBacked_example : IsBacked (operate_all settings plan halfway)
operations-IsBacked_example =
    operations-IsBacked settings scripted-IsGated plan halfway halfway-IsBacked

halfway-IsNumbered : IsNumbered halfway.trace
halfway-IsNumbered = record { numbered = λ i e g. cc g }

trace_appended_example :
    Extends [] (operate_all settings plan halfway).trace
    × IsNumbered (operate_all settings plan halfway).trace
trace_appended_example = trace_appended settings scripted-IsGated plan halfway halfway-IsNumbered

result_forever_example : (operate_all settings plan finished_run).result ≡ some ended
result_forever_example = result_forever settings scripted-IsGated plan finished_run ended refl

abbrev held_goal : Occurrence
held_goal = record routed_goal {
  policies = record { ident = "retry"; args = []; span = here } ∷ [];
}

bind-Binding_example :
    Binding settings.registry held_goal none held_goal.policies (bind settings.registry held_goal 0)
bind-Binding_example = bind-Binding settings.registry held_goal 0
