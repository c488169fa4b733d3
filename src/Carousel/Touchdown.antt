-- ===== src/Carousel/Touchdown.antt =====
-- The Touchdown acknowledgements of carousel/carousel.go: each published leaf leaves the window by
-- one consume or one discard.
use subsea_cable_runtime.Base.{
  Bool, true, false, Option, none, some, String, ◌==◌, string_eq, if◌then◌else◌, get, put, del,
}
use subsea_cable_runtime.Carousel.{
  Carousel, Config, Occurrence, TouchdownCell, TouchdownState, buffered, consumed, discarded, emit,
  event, touchdown_consumed, touchdown_discarded, window_count, evaluation_instance_id,
}

pub data AckResult : Type 0 where
  ack_consumed ack_consumed_replay ack_already_consumed ack_invalid_attempt ack_discarded :
      AckResult
  ack_already_discarded ack_mismatch ack_unknown : AckResult

-- AckResult.Authorizes
unfoldable pub authorizes : AckResult → Bool
authorizes ack_consumed = true
authorizes ack_consumed_replay = true
authorizes _ = false

module _ (cfg : Config) where
  -- The change that a first consume makes.
  unfoldable pub consume_now : String → String → String → Carousel → Carousel
  unfolding emit window_count
  consume_now occ instance_id attempt c =
      let c' = record c {
        touchdowns = put occ (record { state = consumed; consumed_by = attempt }) c.touchdowns;
        window = del occ c.window;
        last_prefix = "";
      } in
      emit
        (record (event touchdown_consumed occ) {
          window = window_count c';
          evaluation_instance = instance_id;
          attempt = attempt;
        })
        c'

  unfoldable pub consume_state :
      TouchdownState
      → String
      → String
      → String
      → String
      → Carousel
      → (AckResult × String) × Carousel
  unfolding consume_now
  consume_state discarded by occ instance_id attempt c = ((ack_discarded, ""), c)
  consume_state consumed by occ instance_id attempt c =
      if by == attempt then ((ack_consumed_replay, attempt), c) else ((ack_already_consumed, by), c)
  consume_state buffered by occ instance_id attempt c =
      ((ack_consumed, attempt), consume_now occ instance_id attempt c)

  unfoldable pub consume_found :
      Option Occurrence
      → Option TouchdownCell
      → String
      → String
      → String
      → Carousel
      → (AckResult × String) × Carousel
  unfolding consume_state evaluation_instance_id
  consume_found none td occ instance_id attempt c = ((ack_unknown, ""), c)
  consume_found (some o) none occ instance_id attempt c = ((ack_unknown, ""), c)
  consume_found (some o) (some td) occ instance_id attempt c =
      if instance_id == evaluation_instance_id cfg o
      then consume_state td.state td.consumed_by occ instance_id attempt c
      else ((ack_mismatch, ""), c)

  -- ConsumeTouchdown
  unfoldable pub consume_touchdown :
      String → String → String → Carousel → (AckResult × String) × Carousel
  unfolding consume_found
  consume_touchdown occ instance_id attempt c =
      if attempt == ""
      then ((ack_invalid_attempt, ""), c)
      else consume_found (get occ c.occs) (get occ c.touchdowns) occ instance_id attempt c

  unfoldable pub discard_now : Occurrence → TouchdownCell → String → String → Carousel → Carousel
  unfolding emit window_count evaluation_instance_id
  discard_now o td occ reason c =
      let c' = record c {
        touchdowns = put occ (record td { state = discarded }) c.touchdowns;
        window = del occ c.window;
        last_prefix = "";
      } in
      emit
        (record (event touchdown_discarded occ) {
          reason = reason;
          window = window_count c';
          evaluation_instance = evaluation_instance_id cfg o;
        })
        c'

  unfoldable pub discard_state :
      TouchdownState
      → Occurrence
      → TouchdownCell
      → String
      → String
      → Carousel
      → (AckResult × String) × Carousel
  unfolding discard_now
  discard_state discarded o td occ reason c = ((ack_already_discarded, ""), c)
  discard_state consumed o td occ reason c = ((ack_already_consumed, td.consumed_by), c)
  discard_state buffered o td occ reason c = ((ack_discarded, ""), discard_now o td occ reason c)

  unfoldable pub discard_found :
      Option Occurrence
      → Option TouchdownCell
      → String
      → String
      → Carousel
      → (AckResult × String) × Carousel
  unfolding discard_state
  discard_found none td occ reason c = ((ack_unknown, ""), c)
  discard_found (some o) none occ reason c = ((ack_unknown, ""), c)
  discard_found (some o) (some td) occ reason c = discard_state td.state o td occ reason c

  -- DiscardTouchdown
  unfoldable pub discard_touchdown : String → String → Carousel → (AckResult × String) × Carousel
  unfolding discard_found
  discard_touchdown occ reason c =
      discard_found (get occ c.occs) (get occ c.touchdowns) occ reason c
