-- ===== src/Runtime/Moves.antt =====
-- The moves of a run: an abstract specification of what the Runtime's methods may do to its state,
-- one small change at a time. The modules below show that every method is a sequence of moves, and
-- what holds of every such sequence.
pub mod Acts
pub mod Policies
pub mod Reports
pub mod Flight
pub mod Finishing
pub mod Settling
pub mod Demanding
pub mod Starting
pub mod Dispatching
pub mod Delivering
pub mod Loops
pub mod Outcomes
pub mod Scripted
use subsea_cable_runtime.Base.{
  ℕ, suc, ◌+◌, ◌<◌, ◌≤◌, Bool, true, false, ◌≡◌, ◌⊎◌, Option, none, some, String, List, [], ◌∷◌,
  get, put, del, string_eq, length, if◌then◌else◌, ltb, is_some,
}
use subsea_cable_runtime.Value.{Output}
use subsea_cable_runtime.Carousel.{Carousel}
use subsea_cable_runtime.Carousel.Calls.{Call, step}
use subsea_cable_runtime.Carousel.Window.Authorization.{is_boundary, ConsumedBy}
use subsea_cable_runtime.Runtime.Trace.{TraceEvent, add_event}
use subsea_cable_runtime.Runtime.Policy.{ScopeState, satisfied, is_terminal}
use subsea_cable_runtime.Runtime.State.{
  Run, Scope, Result, Attempt, TimelineItem, push_item, moved_on, Settings, Gate,
}

-- Quiet moves leave the outcomes of scopes alone, inner moves start no attempt, expose no occurrence
-- and let no time pass, outer moves count no step, and whole moves do anything that a run may do.
pub data Mode : Type 0 where
  quiet inner outer whole : Mode

abbrev pub is_outer : Mode → Bool
is_outer outer = true
is_outer whole = true
is_outer _ = false

abbrev pub is_whole : Mode → Bool
is_whole whole = true
is_whole _ = false

abbrev pub is_loud : Mode → Bool
is_loud quiet = false
is_loud _ = true

-- A trace with events more at its end.
pub data Extends (t : List TraceEvent) : List TraceEvent → Type 0 where
  as_it_is : Extends t t
  event_more : {u : List TraceEvent} (e : TraceEvent) → Extends t u → Extends t (add_event e u)

-- Whether a scope may take the place of another: only a scope that is not terminal gets an outcome.
pub data Fits {S : Type 0} (m : Mode) (old : Option (Scope S)) (s : Scope S) : Type 0 where
  keeps_outcome :
      (t : Scope S)
      → old ≡ some t
      → s.state ≡ t.state
      → s.out ≡ t.out
      → s.diag ≡ t.diag
      → Fits m old s
  changes :
      (t : Scope S) → is_loud m ≡ true → old ≡ some t → is_terminal t.state ≡ false → Fits m old s
  exposes : is_loud m ≡ true → old ≡ none → is_terminal s.state ≡ false → Fits m old s

-- A first attempt has consumed the Touchdown of its leaf; a later one needs no Touchdown.
abbrev pub IsAuthorized : String → String → ℕ → Carousel → Type 0
IsAuthorized attempt occ n c = (1 < n) ⊎ ConsumedBy occ attempt c

pub data Move {H S : Type 0} (set : Settings H S) (m : Mode) (t u : Run H S) : Type 0 where
  logs : (e : TraceEvent) → u ≡ record t { trace = add_event e t.trace } → Move set m t u
  calls :
      (x : Call)
      → (is_boundary x ≡ true) ⊎ (is_outer m ≡ true)
      → u ≡ record t { car = step set.car_cfg t.car x }
      → Move set m t u
  puts :
      (id : String) (s : Scope S)
      → Fits m (get id t.scopes) s
      → u ≡ record t { scopes = put id s t.scopes }
      → Move set m t u
  resolves :
      (id : String) (s : Scope S)
      → get id t.scopes ≡ some s
      → s.state ≡ satisfied
      → u ≡ record t { values = put id s.out t.values }
      → Move set m t u
  pushes :
      (it : TimelineItem)
      → it.seq ≡ suc t.tl_seq
      → u ≡ record t { tl_seq = suc t.tl_seq; tl = push_item it t.tl }
      → Move set m t u
  pops :
      (it : TimelineItem) (rest : List TimelineItem)
      → is_outer m ≡ true
      → t.tl ≡ it ∷ rest
      → u ≡ record t { tl = rest; now = moved_on t.now it.at }
      → Move set m t u
  marks :
      (id : String) (at : Attempt)
      → is_some (get id t.inflight) ≡ true
      → u ≡ record t { inflight = put id at t.inflight }
      → Move set m t u
  lands : (id : String) → u ≡ record t { inflight = del id t.inflight } → Move set m t u
  launches :
      (at : Attempt)
      → is_outer m ≡ true
      → length t.inflight < set.concurrency
      → IsAuthorized at.id at.scope at.number t.car
      → u ≡ record t { inflight = put at.id at t.inflight }
      → Move set m t u
  finishes :
      (x : Result)
      → t.result ≡ none
      → x.steps ≡ t.steps
      → x.time ≡ t.now
      → u ≡ record t { result = some x }
      → Move set m t u
  counts :
      is_whole m ≡ true → t.result ≡ none → u ≡ record t { steps = suc t.steps } → Move set m t u
  hosts : (h : H) → u ≡ record t { host = h } → Move set m t u
  gates :
      (h : H) (g : Gate)
      → Extends t.trace g.log
      → u ≡ record t { host = h; trace = g.log; call_sites = g.call_sites }
      → Move set m t u
  exhausts : u ≡ record t { exhausted = true } → Move set m t u

pub data Evolves {H S : Type 0} (set : Settings H S) (m : Mode) (r : Run H S)
    : Run H S → Type 0 where
  here : Evolves set m r r
  next : {t u : Run H S} → Evolves set m r t → Move set m t u → Evolves set m r u
