-- ===== src/Tests/Window.antt =====
-- The window and the acknowledgements on a published leaf.
use subsea_cable_runtime.Base.{
  String, string_eq, arith, ◌≡◌, ◌≢◌, ◌⊎◌, refl, true, [], ◌∷◌, get, put, show_ℕ,
}
use subsea_cable_runtime.Codebase.{new_codebase}
use subsea_cable_runtime.Carousel.{
  new_carousel, register, in_window, window_count, evaluation_instance_id, drain,
}
use subsea_cable_runtime.Carousel.Touchdown.{
  consume_touchdown, discard_touchdown, ack_consumed, ack_discarded, authorizes,
}
use subsea_cable_runtime.Value.{digest}
use subsea_cable_runtime.Carousel.Demand.{demand}
use subsea_cable_runtime.Carousel.Calls.{run, demands, drains, opens_root, replenishes, consumes}
use subsea_cable_runtime.Carousel.Replenish.{replenish}
use subsea_cable_runtime.Carousel.Replenish.Target.{replenish-full}
use subsea_cable_runtime.Carousel.Window.{IsConsistent, new-IsConsistent, register-IsConsistent}
use subsea_cable_runtime.Carousel.Window.Acks.{
  consume_touchdown_effect, consume_touchdown_buffered, discard_touchdown_effect, Leaves,
}
use subsea_cable_runtime.Carousel.Window.Deductions.{run-IsConsistent}
use subsea_cable_runtime.Carousel.Window.Authorization.{authorized_once, is_boundary}
use subsea_cable_runtime.Tests.Data.{config, leaf, published, source, no_outputs, committed_base}

published-IsConsistent : IsConsistent published
published-IsConsistent =
    register-IsConsistent config leaf (new_carousel new_codebase 1)
      (new-IsConsistent new_codebase 1)

consume_touchdown_effect_example :
    let r = consume_touchdown config "r.d" (evaluation_instance_id config leaf) "a" published in
    ((r.0.0 ≢ ack_consumed) × (r.1 ≡ published))
    ⊎ ((r.0.0 ≡ ack_consumed) × Leaves config "r.d" published r.1)
consume_touchdown_effect_example =
    consume_touchdown_effect config "r.d" (evaluation_instance_id config leaf) "a" published
      published-IsConsistent

discard_touchdown_effect_example :
    let r = discard_touchdown config "r.d" "stopped" published in
    ((r.0.0 ≢ ack_discarded) × (r.1 ≡ published))
    ⊎ ((r.0.0 ≡ ack_discarded) × Leaves config "r.d" published r.1)
discard_touchdown_effect_example =
    discard_touchdown_effect config "r.d" "stopped" published published-IsConsistent

published_in : in_window published "r.d" ≡ true
unfolding in_window register new_carousel get put
published_in = refl

consume_touchdown_buffered_example :
    (consume_touchdown config "r.d" (evaluation_instance_id config leaf) "a" published).0
    ≡ (ack_consumed, "a")
unfolding register new_carousel get put
consume_touchdown_buffered_example =
    consume_touchdown_buffered config "r.d" (evaluation_instance_id config leaf) "a" published
      (record leaf { seq = 1 }) published-IsConsistent (λ e. cc) refl refl published_in

run-IsConsistent_example : IsConsistent (
    run config
      (new_carousel committed_base 1)
      (opens_root source ∷ replenishes no_outputs 3 ∷ consumes "r.d" "i" "a" ∷ []))
run-IsConsistent_example =
    run-IsConsistent config (new_carousel committed_base 1)
      (opens_root source ∷ replenishes no_outputs 3 ∷ consumes "r.d" "i" "a" ∷ [])
      (new-IsConsistent committed_base 1)

abbrev attempt : String
attempt = "a"

authorized_once_example : attempt ≡ attempt
unfolding register new_carousel get put run is_boundary authorizes consume_touchdown digest show_ℕ
    drain demand
authorized_once_example =
    authorized_once config "r.d" (evaluation_instance_id config leaf) "a"
      (evaluation_instance_id config leaf) "a" published (demands "r" ∷ drains ∷ [])
      (refl, (refl, tt)) refl refl

replenish-full_example : replenish config no_outputs 3 published ≡ drain published
unfolding register new_carousel get put window_count
replenish-full_example = replenish-full config no_outputs published 3 refl (omega arith)
