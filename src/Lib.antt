-- ===== src/Lib.antt =====
-- A model of the Subsea Cable Runtime: its deduction core with the Codebase, values and evaluator,
-- and the control plane that schedules, delivers and settles what is deduced.
--
-- The program's parts and the files that model them:
--   Diag       diag/diag.go: diagnostics, and the errors that Go functions return.
--   Value      value/value.go: values, structural keys, ordered maps, the canonical encoding.
--              Value/Numbers has RatKey on fractions in lowest terms.
--   Syntax     syntax/ast.go: the syntax tree, the casing law, the number text rule.
--              Syntax/Canonical has the encoding that artifact hashes are taken of.
--   Expr       expr/expr.go: environments, Eval, EvalAll, LookupEntry, StaticKey, BindParams.
--   Sema       sema/sema.go: the prepared unit that validation hands on, as data only.
--   Codebase   codebase/codebase.go: artifacts, aliases, revisions, run IDs and the ledger;
--              Codebase/Commit has CommitUnit.
--   Carousel   carousel/carousel.go: the occurrences, the demand, the window of published leaves
--              and the events. Carousel/Touchdown has ConsumeTouchdown and DiscardTouchdown,
--              Carousel/Demand has Demand, Withdraw and SetPrefetch, Carousel/Expand has expand and
--              expandBody, Carousel/Deduce has deduce, and Carousel/Replenish has OpenRoot and
--              Replenish. Carousel/Calls has the calls that the control plane makes, and histories.
--   Host       host/host.go: the interface of a Host. Host/Scripted has the scripted Host, and
--              Host/Rational the primitives of host/primitives.go.
--   Runtime    runtime/runtime.go, by what its methods do. Runtime/State has the state of a run and
--              Runtime/Act the steps that methods are made of. Runtime/Actions has notify and apply,
--              Runtime/Events has handle, Runtime/Scopes has settle, evaluateParent and
--              cancelSubtree, Runtime/Demand has demand, schedulerDemand and structurallyReady,
--              Runtime/Launch has start, Runtime/Dispatch has dispatch, Runtime/Deliver has deliver,
--              Runtime/Reactor has pump, stabilize, Step, RunToCompletion, Cancel, CancelScope,
--              Demand and SetPrefetch, Runtime/Operations has sequences of these calls, and
--              Runtime/Start has Start. Runtime/Trace is runtime/trace.go and Runtime/Policy is
--              runtime/policy.go. Runtime/Moves is a specification, a step relation on runs, and
--              the files below it follow the methods' steps; Runtime/Laws has what follows of it.
--   Base       shared names, lists, association lists, decimal numerals and text helpers.
--   Tests      concrete inputs and the theorems at them.
-- Theorems stand in the modules below the component that they are about.
--
-- How they interact: the evaluator computes on values and syntax. CommitUnit stores the Goals of a
-- unit under the hash of their encoding. The Carousel exposes the Root, and Replenish deduces
-- occurrences: it resolves the artifact of a Goal in the Codebase, binds its arguments, expands
-- its body, appends a record to the ledger, and exposes what the body names. Exposed leaves enter
-- the window, and leave it by an acknowledgement. The Runtime makes these calls and handles the
-- events that it drains: it opens a scope for each exposed occurrence, dispatches ready leaves to
-- the Host while Concurrency allows, puts their completions and timers on the timeline, and settles
-- scopes as they are delivered. A settled output goes into the value store, which the Carousel's
-- deduction reads.
--
-- State is passed on explicitly: an operation of a Go method with a pointer receiver is a function
-- to the new state and the result. The Codebase that a Carousel points to is a field of its state,
-- and every Codebase operation, which holds the lock from its start to its end, is one step. A Go
-- map is an association list. An occurrence, which Go holds by a pointer both in a map and in the
-- exposure order, is named by its ID in both, and so are the scopes of a run. A name node is
-- identified by its span where the source uses its address. A Go pair of a value and an error is a
-- Res. A method of a run is an Act, a function on the run; an early return of the source is a
-- continuation that is not entered. A diagnostic is a value: what the source later writes into a
-- Diagnostic that a trace event shares is not seen by that event. The attempts in flight, a map in
-- the source, are kept in the order of their entry. Ticks and due times are integers, and a due time
-- is the sum of the clock and the ticks as 64 bits hold it; the clock, which starts at 0 and moves
-- on only to a later time, is a natural number, and so are the counters of steps and pushes, which
-- are far from 2^63. The prefetch target is a natural number: SetPrefetch makes it one, and a Start
-- with a negative Prefetch, which the source keeps as it is, is left out.
--
-- Parameters: SHA-256 is the argument `sha256`; the Host's primitives are a record of functions, as
-- they are an interface in the source; the Anchor gateway is a function on a state of any type;
-- the values that the Runtime has resolved are a function from occurrence IDs; the Host of a run, a
-- HostPort, is a record of functions on a state of any type, and so are the interpreters of
-- policies. A Host evaluates a function with a gateway to the Runtime, whose call sites it numbers
-- on a counter; the theorems on runs ask that it touches the counter only through that gateway,
-- which IsGated in Runtime/Moves/Starting says. Runtime/Moves/Scripted is about this of the
-- scripted Host, which the runs of Tests/Operations have.
--
-- Fuel: evaluation recurs on the expression, and takes fuel only to follow a top-level binding;
-- Expr/Answers says how much is enough, and the error `exhausted` is what a deduction with less
-- fails with. The search for a free run ID takes one step more than there are runs, and
-- Codebase/Runs shows that it finds one. The walk of `cyclic` takes one step for each occurrence,
-- the walk of `describe` one for each staged one, and the divisions of RatKey one for each unit of
-- the denominator; the greatest common divisor in Host/Rational takes one more than that. The two
-- loops of Replenish have no bound in the source; here they take the number of their rounds, and a
-- Carousel whose loop would go on beyond it has its flag `unfinished` set. What is proved of
-- Replenish, and of the calls on a run that make it, holds for every number, and says nothing of
-- when these loops end. The walks of settle, cancelSubtree and structurallyReady take one step more
-- than there are occurrences; a run that needed more in the first two has its flag `exhausted` set,
-- and that this never happens is not proved. The bounds of stabilize and pump are the source's.
-- RunToCompletion takes the number of its iterations.
--
-- Not modelled: message texts and free-form details of diagnostics and trace events, the display
-- forms of values, policies and occurrences, the printing of a trace, what blockingReasons lists,
-- Echo, number texts that the lexer does not make, the lexer, the parser, the checks of sema, and
-- the command line.
pub mod Base
pub mod Diag
pub mod Value
pub mod Syntax
pub mod Expr
pub mod Sema
pub mod Codebase
pub mod Carousel
pub mod Host
pub mod Runtime
pub mod Tests
