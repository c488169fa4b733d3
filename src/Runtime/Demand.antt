-- ===== src/Runtime/Demand.antt =====
-- Demand of runtime/runtime.go: demand, schedulerDemand and structurallyReady.
use subsea_cable_runtime.Base.{
  ℕ, zero, suc, Bool, true, false, not, ◌&&◌, ◌||◌, Option, none, some, String, List, [], ◌∷◌, ◌++◌,
  map, string_eq, get, length, if◌then◌else◌, ◌<>◌, is_some, Map,
}
use subsea_cable_runtime.Value.{no_output}
use subsea_cable_runtime.Carousel.{
  Carousel, Occurrence, State, failed, deducible, is_undeduced, is_demanded, occurrences,
}
use subsea_cable_runtime.Carousel.Calls
use subsea_cable_runtime.Carousel.Demand.{
  DemandResult, demand_accepted, demand_failed_earlier, demand,
}
use subsea_cable_runtime.Runtime.Policy.{ScopeState, is_terminal, before_attempt}
use subsea_cable_runtime.Runtime.Policy
use subsea_cable_runtime.Runtime.State.{Scope, Settings, DemandMode, demand_ready, demand_manual}
use subsea_cable_runtime.Runtime.Act.{
  Act, ◌▷◌, asking, when, choose, scope_of, occurrence_of, with_scope, note, tell, is_settled,
}
use subsea_cable_runtime.Runtime.Scopes.{settle, is_satisfied}

abbrev is_failed_earlier : DemandResult → Bool
is_failed_earlier demand_failed_earlier = true
is_failed_earlier _ = false

-- The answers that schedulerDemand counts.
abbrev counts_as_demand : DemandResult → Bool
counts_as_demand demand_accepted = true
counts_as_demand demand_failed_earlier = true
counts_as_demand _ = false

abbrev is_failed_state : State → Bool
is_failed_state failed = true
is_failed_state _ = false

abbrev is_ready_mode : DemandMode → Bool
is_ready_mode demand_ready = true
is_ready_mode demand_manual = false

abbrev pub is_empty : List String → Bool
is_empty [] = true
is_empty (x ∷ xs) = false

module _ {S : Type 0} where
  is_satisfied_scope : Option (Scope S) → Bool
  is_satisfied_scope none = false
  is_satisfied_scope (some s) = is_satisfied s.state

  missing_deps : Map String (Scope S) → List String → List String
  unfolding is_satisfied_scope
  missing_deps m [] = []
  missing_deps m (d ∷ ds) =
      let rest = missing_deps m ds in
      if is_satisfied_scope (get d m) then rest else ("dependsOn:" <> d) ∷ rest

  settled_ancestor : Map String (Scope S) → String → List String
  unfolding is_settled
  settled_ancestor m id = if is_settled (get id m) then ("ancestorSettled:" <> id) ∷ [] else []

  -- structurallyReady from an ancestor on. The parents are no more than the occurrences are.
  reasons_above : Carousel → Map String (Scope S) → ℕ → String → List String
  unfolding missing_deps settled_ancestor
  reasons_above c m zero id = []
  reasons_above c m (suc f) id = elim (get id c.occs) [
    | none ↦ []
    | some o ↦ (missing_deps m o.deps ++ settled_ancestor m o.id) ++ reasons_above c m f o.parent_id
  ]

  -- structurallyReady: the reasons; ready is that there are none.
  unfoldable pub structural_reasons : Carousel → Map String (Scope S) → Occurrence → List String
  unfolding reasons_above missing_deps
  structural_reasons c m o =
      missing_deps m o.deps ++ reasons_above c m (suc (length c.occs)) o.parent_id

  has_deferred : Option (Scope S) → Bool
  has_deferred none = false
  has_deferred (some s) = is_some s.deferred

  -- What schedulerDemand asks of an occurrence and its scope.
  wants_demand : Carousel → Occurrence → Option (Scope S) → Bool
  unfolding deducible is_demanded is_settled has_deferred
  wants_demand c o ms =
      deducible o
      && not (is_demanded c o.id)
      && is_some ms
      && not (is_settled ms)
      && (is_undeduced o.state || (is_failed_state o.state && has_deferred ms))

module _ {H S : Type 0} (set : Settings H S) where
  unfoldable pub surface : String → Act H S
  unfolding with_scope when note settle ◌▷◌
  surface id = with_scope id (λ s.
      when (is_some s.deferred && not (is_terminal s.state))
        (note "DeductionFailureSurfaced" id ▷ settle set id Policy.failed no_output s.deferred))

  -- demand; `k` goes on with what it returns.
  unfoldable pub demand_then : String → (DemandResult → Act H S) → Act H S
  unfolding surface asking tell when ◌▷◌ demand
  demand_then id k =
      asking (λ r. (demand id r.car).0)
        (λ res.
          tell set.car_cfg (Calls.demands id) ▷ when (is_failed_earlier res) (surface id) ▷ k res)

  -- One turn of schedulerDemand; `k` goes on with whether it demanded.
  unfoldable pub demand_one : String → (Bool → Act H S) → Option Occurrence → Act H S
  unfolding asking choose scope_of wants_demand structural_reasons demand_then
  demand_one id k none = k false
  demand_one id k (some o) =
      asking
        (λ r.
          wants_demand r.car o (scope_of id r) && is_empty (structural_reasons r.car r.scopes o))
        (λ wanted. choose wanted (demand_then id (λ res. k (counts_as_demand res))) (k false))

  unfoldable pub demand_turn : String → (Bool → Act H S) → Act H S
  unfolding asking occurrence_of demand_one
  demand_turn id k = asking (occurrence_of id) (demand_one id k)

  unfoldable pub demand_each : List String → Bool → (Bool → Act H S) → Act H S
  unfolding demand_turn
  demand_each [] any k = k any
  demand_each (id ∷ ids) any k = demand_turn id (λ one. demand_each ids (any || one) k)

  -- schedulerDemand; `k` goes on with what it returns.
  unfoldable pub scheduler_demand : (Bool → Act H S) → Act H S
  unfolding demand_each choose asking occurrences
  scheduler_demand k =
      choose (is_ready_mode set.mode)
        (asking (λ r. map (λ o. o.id) (occurrences r.car)) (λ ids. demand_each ids false k))
        (k false)
