-- ===== src/Carousel/Calls.antt =====
-- The calls that the Vessel's control plane makes on a Carousel, and histories of them.
use subsea_cable_runtime.Base.{ℕ, String, List, [], ◌∷◌, ℤ}
use subsea_cable_runtime.Sema.{SourceUnit}
use subsea_cable_runtime.Carousel.{Carousel, Config, ValueSource, drain}
use subsea_cable_runtime.Carousel.Touchdown.{consume_touchdown, discard_touchdown}
use subsea_cable_runtime.Carousel.Demand.{demand, withdraw, set_prefetch}
use subsea_cable_runtime.Carousel.Replenish.{open_root, replenish}

-- `replenishes` carries the outputs that the value store holds at the call, and the rounds of fuel.
pub data Call : Type 0 where
  opens_root : SourceUnit → Call
  demands withdraws : String → Call
  sets_prefetch : ℤ → Call
  drains : Call
  consumes : String → String → String → Call
  discards : String → String → Call
  replenishes : ValueSource → ℕ → Call

module _ (cfg : Config) where
  unfoldable pub step : Carousel → Call → Carousel
  step c (opens_root u) = (open_root cfg u c).1
  step c (demands id) = (demand id c).1
  step c (withdraws id) = withdraw id c
  step c (sets_prefetch n) = set_prefetch n c
  step c drains = (drain c).1
  step c (consumes occ instance_id attempt) = (consume_touchdown cfg occ instance_id attempt c).1
  step c (discards occ reason) = (discard_touchdown cfg occ reason c).1
  step c (replenishes values fuel) = (replenish cfg values fuel c).1

  unfoldable pub run : Carousel → List Call → Carousel
  unfolding step
  run c [] = c
  run c (x ∷ xs) = run (step c x) xs
