-- ===== src/Carousel/Demand.antt =====
-- Demand, withdrawal and the prefetch target of carousel/carousel.go.
pub mod Effects
use subsea_cable_runtime.Base.{
  ℕ, Bool, true, false, Option, none, some, String, ◌==◌, string_eq, if◌then◌else◌, get, put, del,
  is_some, ◌&&◌, ℤ, pos, negsuc,
}
use subsea_cable_runtime.Carousel.{
  Carousel, Occurrence, State, undeduced, committed, failed, withdrawn, is_undeduced, deducible,
  emit, event, demand_observed, demand_withdrawn, prefetch_reconfigured,
}

pub data DemandResult : Type 0 where
  demand_accepted demand_already_pending demand_already_deduced demand_failed_earlier : DemandResult
  demand_withdrawn_earlier demand_not_deducible demand_unknown : DemandResult

accept : String → Carousel → DemandResult × Carousel
unfolding emit
accept id c = if is_some (get id c.demanded) then (demand_already_pending, c) else (
  demand_accepted,
  emit (event demand_observed id) (record c { demanded = put id true c.demanded }),
)

demand_state : State → String → Carousel → DemandResult × Carousel
unfolding accept
demand_state committed id c = (demand_already_deduced, c)
demand_state failed id c = (demand_failed_earlier, c)
demand_state withdrawn id c = (demand_withdrawn_earlier, c)
demand_state undeduced id c = accept id c

demand_found : Option Occurrence → String → Carousel → DemandResult × Carousel
unfolding demand_state deducible
demand_found none id c = (demand_unknown, c)
demand_found (some o) id c =
    if deducible o then demand_state o.state id c else (demand_not_deducible, c)

-- Carousel.Demand
unfoldable pub demand : String → Carousel → DemandResult × Carousel
unfolding demand_found
demand id c = demand_found (get id c.occs) id c

withdraw_found : Option Occurrence → String → Carousel → Carousel
unfolding emit deducible
withdraw_found none id c = c
withdraw_found (some o) id c =
    if deducible o && is_undeduced o.state
    then emit (event demand_withdrawn id) (record c {
      occs = put id (record o { state = withdrawn }) c.occs;
      demanded = del id c.demanded;
    })
    else c

-- Carousel.Withdraw
unfoldable pub withdraw : String → Carousel → Carousel
unfolding withdraw_found
withdraw id c = withdraw_found (get id c.occs) id c

at_least_zero : ℤ → ℕ
at_least_zero (pos n) = n
at_least_zero (negsuc n) = 0

-- SetPrefetch
unfoldable pub set_prefetch : ℤ → Carousel → Carousel
unfolding emit at_least_zero
set_prefetch n c =
    emit (record (event prefetch_reconfigured "") { count = at_least_zero n })
      (record c { prefetch = at_least_zero n; last_prefix = "" })
