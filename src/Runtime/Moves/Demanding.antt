-- ===== src/Runtime/Moves/Demanding.antt =====
-- The moves of demand and schedulerDemand.
use subsea_cable_runtime.Base.{
  ◌≡◌, Bool, true, false, ◌||◌, Option, none, some, String, List, [], ◌∷◌,
}
use subsea_cable_runtime.Carousel.{Occurrence}
use subsea_cable_runtime.Carousel.Demand.{DemandResult}
use subsea_cable_runtime.Runtime.State.{Settings}
use subsea_cable_runtime.Runtime.Act.{Act, occurrence_of}
use subsea_cable_runtime.Runtime.Demand.{
  surface, demand_then, demand_one, demand_turn, demand_each, scheduler_demand,
}
use subsea_cable_runtime.Runtime.Moves.{Mode, is_loud}
use subsea_cable_runtime.Runtime.Moves.Acts.{
  Safe, Holds, Regime, safe_acts, held_acts, asking-Holds,
}
use subsea_cable_runtime.Runtime.Moves.Policies.{IsSettling}
use subsea_cable_runtime.Runtime.Moves.Settling.{settle-IsSettling}

module _ {H S : Type 0} {set : Settings H S} where
  surface-Safe : {m : Mode} (id : String) → is_loud m ≡ true → Safe set m (surface set id)
  unfolding surface
  surface-Safe {m} id loud =
      let settling : IsSettling set m _ = settle-IsSettling set loud in
      search (safe_acts, settling.settles)

  module _ {g : Regime set} (loud : is_loud g.base ≡ true) where
    pub demand_then-Holds :
        (id : String) {k : DemandResult → Act H S}
        → ((res : DemandResult) → Holds set g (k res))
        → Holds set g (demand_then set id k)
    unfolding demand_then
    demand_then-Holds id hk = search (held_acts, surface-Safe, loud, hk) depth 8

    demand_one-Holds :
        (id : String) (mo : Option Occurrence) {k : Bool → Act H S}
        → ((b : Bool) → Holds set g (k b))
        → Holds set g (demand_one set id k mo)
    unfolding demand_one
    demand_one-Holds id none hk = hk false
    demand_one-Holds id (some o) hk = search (held_acts, demand_then-Holds, hk)

    demand_turn-Holds :
        (id : String) {k : Bool → Act H S}
        → ((b : Bool) → Holds set g (k b))
        → Holds set g (demand_turn set id k)
    unfolding demand_turn
    demand_turn-Holds id hk = asking-Holds (occurrence_of id) (λ mo. demand_one-Holds id mo hk)

    demand_each-Holds :
        (ids : List String) (any : Bool) {k : Bool → Act H S}
        → ((b : Bool) → Holds set g (k b))
        → Holds set g (demand_each set ids any k)
    unfolding demand_each
    demand_each-Holds [] any hk = hk any
    demand_each-Holds (id ∷ ids) any hk =
        demand_turn-Holds id (λ b. demand_each-Holds ids (any || b) hk)

    pub scheduler_demand-Holds :
        {k : Bool → Act H S}
        → ((b : Bool) → Holds set g (k b))
        → Holds set g (scheduler_demand set k)
    unfolding scheduler_demand
    scheduler_demand-Holds hk = search (held_acts, demand_each-Holds, hk)
