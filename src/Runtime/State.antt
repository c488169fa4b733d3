-- ===== src/Runtime/State.antt =====
-- The state of a run, and the settings that do not change while it runs.
use subsea_cable_runtime.Base.{
  ℕ, suc, ◌+◌, ◌-◌, ◌%◌, ◌^◌, Bool, true, false, Option, none, String, List, [], ◌∷◌, ◌==◌,
  string_eq, nat_eq, if◌then◌else◌, Map, ltb, ℤ, pos, negsuc,
}
use subsea_cable_runtime.Diag.{Diagnostic}
use subsea_cable_runtime.Value.{Output, no_output, output}
use subsea_cable_runtime.Value
use subsea_cable_runtime.Carousel.{Carousel, Config}
use subsea_cable_runtime.Host.{Outcome, Status, HostPort}
use subsea_cable_runtime.Runtime.Trace.{TraceEvent}
use subsea_cable_runtime.Runtime.Policy.{ScopeState, BoundPolicy, Registry}

pub data LeafPhase : Type 0 where
  no_leaf grounded waiting eligible in_flight : LeafPhase

pub record Scope (S : Type 0) : Type 0 where
  pub id : String
  pub state : ScopeState
  pub leaf : LeafPhase
  pub wait_reasons : List String
  pub out : Output
  pub diag : Option Diagnostic
  pub attempts : ℕ
  pub not_before : ℤ
  pub policies : List (BoundPolicy S)
  pub opened : Bool
  pub withheld : Bool
  pub deferred : Option Diagnostic

-- A Go literal of a Scope with its ID and state.
abbrev pub scope_literal : {S : Type 0} → String → ScopeState → Scope S
scope_literal id st = record {
  id = id;
  state = st;
  leaf = no_leaf;
  wait_reasons = [];
  out = output Value.invalid;
  diag = none;
  attempts = 0;
  not_before = pos 0;
  policies = [];
  opened = false;
  withheld = false;
  deferred = none;
}

pub record Result : Type 0 where
  pub status : Status
  pub out : Output
  pub diag : Option Diagnostic
  pub steps : ℕ
  pub time : ℕ

pub record Attempt : Type 0 where
  pub id : String
  pub scope : String
  pub number : ℕ
  pub cancelled : Bool

pub data ItemKind : Type 0 where
  completion : String → Outcome → ItemKind
  timer : String → ItemKind
  backoff : ItemKind

pub record TimelineItem : Type 0 where
  pub at : ℤ
  pub seq : ℕ
  pub scope : String
  pub kind : ItemKind

-- `<` and `==` on the source's int.
unfoldable pub less : ℤ → ℤ → Bool
less (pos m) (pos n) = ltb m n
less (pos m) (negsuc n) = false
less (negsuc m) (pos n) = true
less (negsuc m) (negsuc n) = ltb n m

unfoldable pub same : ℤ → ℤ → Bool
same (pos m) (pos n) = m == n
same (pos m) (negsuc n) = false
same (negsuc m) (pos n) = false
same (negsuc m) (negsuc n) = m == n

-- The int that 64 bits stand for.
unfoldable pub signed : ℕ → ℤ
signed n = if ltb n (2 ^ 63) then pos n else negsuc (2 ^ 64 - 1 - n)

-- The time `ticks` after the clock, which is never negative: the sum of ints wraps around.
unfoldable pub due : ℕ → ℤ → ℤ
unfolding signed
due now (pos ticks) = signed ((now + ticks) % 2 ^ 64)
due now (negsuc ticks) = if ltb ticks now then pos (now - suc ticks) else negsuc (ticks - now)

-- Whether a time is after the clock, and the clock moved on to a time.
unfoldable pub is_later : ℕ → ℤ → Bool
is_later now (pos n) = ltb now n
is_later now (negsuc n) = false

unfoldable pub moved_on : ℕ → ℤ → ℕ
moved_on now (pos n) = if ltb now n then n else now
moved_on now (negsuc n) = now

-- Less
unfoldable pub is_before : TimelineItem → TimelineItem → Bool
unfolding less same
is_before a b = if same a.at b.at then ltb a.seq b.seq else less a.at b.at

-- container/heap over Less, of which Push and Pop are used: Pop takes the least item, and no two
-- items share their number, so the items are kept in order.
unfoldable pub push_item : TimelineItem → List TimelineItem → List TimelineItem
unfolding is_before
push_item it [] = it ∷ []
push_item it (x ∷ xs) =
    let rest = push_item it xs in if is_before it x then it ∷ x ∷ xs else x ∷ rest

-- What the Anchor gateway of a function leaf writes to.
pub record Gate : Type 0 where
  pub log : List TraceEvent
  pub call_sites : ℕ

pub record Run (H S : Type 0) : Type 0 where
  pub car : Carousel
  pub scopes : Map String (Scope S)
  pub values : Map String Output
  pub trace : List TraceEvent
  pub now : ℕ
  pub tl : List TimelineItem
  pub tl_seq : ℕ
  pub inflight : Map String Attempt
  pub result : Option Result
  pub steps : ℕ
  pub call_sites : ℕ
  pub host : H
  -- Fuel ran out; the source has no such state.
  pub exhausted : Bool

pub data DemandMode : Type 0 where
  demand_ready demand_manual : DemandMode

-- Config after its defaults, with the Host, the parameters of the Carousel's model, and the rounds
-- of fuel for a Replenish. A hook that is not set is `none`.
pub record Settings (H S : Type 0) : Type 0 where
  pub car_cfg : Config
  pub concurrency : ℕ
  pub mode : DemandMode
  pub registry : Registry S
  pub withhold : Option (String → ℤ)
  pub reattempt : Option (String → ℕ → Bool)
  pub port : HostPort H Gate
  pub max_steps : ℕ
  pub rounds : ℕ
