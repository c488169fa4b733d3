-- ===== src/Carousel/Window/Acks.antt =====
-- The acknowledgements and the window: what each does, exactly when, and who is authorized.
use subsea_cable_runtime.Base.{
  ◌+◌, ◌≡◌, ◌≢◌, ◌⊎◌, inl, inr, refl, ◌∙◌, sym, true, false, Option, none, some, String, ◌==◌,
  string_eq, get, put, del, get-put, get-del, is_some, arith, del-Distinct, length-del, Bool-cases,
  beq_self,
}
use subsea_cable_runtime.Carousel.{
  Carousel, Config, Occurrence, TouchdownCell, TouchdownState, buffered, consumed, discarded, emit,
  evaluation_instance_id, window_count, in_window,
}
use subsea_cable_runtime.Carousel.Touchdown.{
  AckResult, ack_consumed, ack_consumed_replay, ack_already_consumed, ack_invalid_attempt,
  ack_discarded, ack_already_discarded, ack_mismatch, ack_unknown, consume_touchdown,
  discard_touchdown, consume_now, consume_state, consume_found, discard_now, discard_state,
  discard_found,
}
use subsea_cable_runtime.Carousel.Window.{IsConsistent, is_buffered}

-- The touchdown map with one cell that is no longer buffered, and the window without its ID.
retire-IsConsistent :
    (c c' : Carousel) (occ : String) (td : TouchdownCell)
    → is_buffered (some td) ≡ false
    → c'.window ≡ del occ c.window
    → c'.touchdowns ≡ put occ td c.touchdowns
    → IsConsistent c
    → IsConsistent c'
retire-IsConsistent c c' occ td out w t h = record {
  agrees = λ id. rw (w, t) (simp (get-put, get-del) (ground (arith, h.agrees id, out)));
  distinct = rw w (del-Distinct occ c.window h.distinct);
}

module _ {ℓ} (P : (AckResult × String) × Carousel → Type ℓ) (cfg : Config) where
  -- A property of every answer that leaves the state alone, and of the one that consumes.
  pub consume_cases :
      (occ instance_id attempt : String) (c : Carousel)
      → ((r : AckResult × String) → r.0 ≢ ack_consumed → P (r, c))
      → ((o : Occurrence) (td : TouchdownCell)
          → attempt ≢ ""
          → get occ c.occs ≡ some o
          → get occ c.touchdowns ≡ some td
          → td.state ≡ buffered
          → instance_id ≡ evaluation_instance_id cfg o
          → P ((ack_consumed, attempt), consume_now cfg occ instance_id attempt c))
      → P (consume_touchdown cfg occ instance_id attempt c)
  unfolding consume_touchdown
  consume_cases occ instance_id attempt c stay go = elim (Bool-cases (attempt == "")) [
    | inl e ↦ rw e (stay (ack_invalid_attempt, "") (λ x. cc))
    | inr named ↦ rw named (
        found (get occ c.occs) (get occ c.touchdowns) refl refl
          (λ e. cc ((string_eq.beq_iff attempt "").1 e)))
  ]
    where
      at_state :
          (o : Occurrence) (td : TouchdownCell) (st : TouchdownState)
          → st ≡ td.state
          → (st ≡ buffered → P ((ack_consumed, attempt), consume_now cfg occ instance_id attempt c))
          → P (consume_state cfg st td.consumed_by occ instance_id attempt c)
      at_state o td buffered e f = f refl
      at_state o td discarded e f = stay (ack_discarded, "") (λ x. cc)
      at_state o td consumed e f = elim (Bool-cases (td.consumed_by == attempt)) [
        | inl same ↦ rw same (stay (ack_consumed_replay, attempt) (λ x. cc))
        | inr other ↦ rw other (stay (ack_already_consumed, td.consumed_by) (λ x. cc))
      ]

      found :
          (mo : Option Occurrence) (mt : Option TouchdownCell)
          → mo ≡ get occ c.occs
          → mt ≡ get occ c.touchdowns
          → attempt ≢ ""
          → P (consume_found cfg mo mt occ instance_id attempt c)
      found none mt p q n = stay (ack_unknown, "") (λ x. cc)
      found (some o) none p q n = stay (ack_unknown, "") (λ x. cc)
      found (some o) (some td) p q n =
          elim (Bool-cases (instance_id == evaluation_instance_id cfg o)) [
            | inl same ↦ rw same (
                at_state o td td.state refl
                  (λ b. go o td n (sym p) (sym q) b ((string_eq.beq_iff _ _).0 same)))
            | inr other ↦ rw other (stay (ack_mismatch, "") (λ x. cc))
          ]

  pub discard_cases :
      (occ reason : String) (c : Carousel)
      → ((r : AckResult × String) → r.0 ≢ ack_discarded → P (r, c))
      → ((o : Occurrence) (td : TouchdownCell)
          → get occ c.occs ≡ some o
          → get occ c.touchdowns ≡ some td
          → td.state ≡ buffered
          → P ((ack_discarded, ""), discard_now cfg o td occ reason c))
      → P (discard_touchdown cfg occ reason c)
  unfolding discard_touchdown
  discard_cases occ reason c stay go = found (get occ c.occs) (get occ c.touchdowns) refl refl
    where
      at_state :
          (o : Occurrence) (td : TouchdownCell) (st : TouchdownState)
          → (st ≡ buffered → P ((ack_discarded, ""), discard_now cfg o td occ reason c))
          → P (discard_state cfg st o td occ reason c)
      at_state o td buffered f = f refl
      at_state o td discarded f = stay (ack_already_discarded, "") (λ x. cc)
      at_state o td consumed f = stay (ack_already_consumed, td.consumed_by) (λ x. cc)

      found :
          (mo : Option Occurrence) (mt : Option TouchdownCell)
          → mo ≡ get occ c.occs
          → mt ≡ get occ c.touchdowns
          → P (discard_found cfg mo mt occ reason c)
      found none mt p q = stay (ack_unknown, "") (λ x. cc)
      found (some o) none p q = stay (ack_unknown, "") (λ x. cc)
      found (some o) (some td) p q = at_state o td td.state (λ b. go o td (sym p) (sym q) b)

module _ (cfg : Config) where
  consume_now-IsConsistent :
      (occ instance_id attempt : String) (c : Carousel)
      → IsConsistent c
      → IsConsistent (consume_now cfg occ instance_id attempt c)
  unfolding consume_now is_buffered
  consume_now-IsConsistent occ instance_id attempt c h =
      retire-IsConsistent c _ occ (record { state = consumed; consumed_by = attempt }) refl refl
        refl h

  -- ConsumeTouchdown keeps the window consistent, whatever it answers.
  pub consume_touchdown-IsConsistent :
      (occ instance_id attempt : String) (c : Carousel)
      → IsConsistent c
      → IsConsistent (consume_touchdown cfg occ instance_id attempt c).1
  consume_touchdown-IsConsistent occ instance_id attempt c h =
      consume_cases (λ r. IsConsistent r.1) cfg occ instance_id attempt c (λ r _. h)
        λ o td _ _ _ _ _. consume_now-IsConsistent occ instance_id attempt c h

  -- So does DiscardTouchdown.
  pub discard_touchdown-IsConsistent :
      (occ reason : String) (c : Carousel)
      → IsConsistent c
      → IsConsistent (discard_touchdown cfg occ reason c).1
  unfolding discard_now is_buffered
  discard_touchdown-IsConsistent occ reason c h =
      discard_cases (λ r. IsConsistent r.1) cfg occ reason c (λ r _. h)
        λ o td _ _ _. retire-IsConsistent c _ occ (record td { state = discarded }) refl refl refl h

  -- What leaving the window means: the Touchdown was in it and is not any more, the count falls by
  -- one, and every other Touchdown stays as it was.
  pub record Leaves (occ : String) (c c' : Carousel) : Type 0 where
    pub was_in : in_window c occ ≡ true
    pub is_out : in_window c' occ ≡ false
    pub one_less : window_count c' + 1 ≡ window_count c
    pub others : (id : String) → (occ ≡ id) ⊎ (in_window c' id ≡ in_window c id)

  del-Leaves :
      (occ : String) (c c' : Carousel) (td : TouchdownCell)
      → IsConsistent c
      → get occ c.touchdowns ≡ some td
      → td.state ≡ buffered
      → c'.window ≡ del occ c.window
      → Leaves occ c c'
  unfolding in_window window_count is_buffered
  del-Leaves occ c c' td h found buf w = record {
    was_in = inside;
    is_out = rw w (simp (get-del, beq_self));
    one_less = rw w (length-del occ c.window h.distinct inside);
    others = λ id. elim (Bool-cases (occ == id)) [
      | inl same ↦ inl ((string_eq.beq_iff occ id).0 same)
      | inr other ↦ inr (rw w (simp get-del (rw other)))
    ];
  }
    where
      inside : is_some (get occ c.window) ≡ true
      inside = h.agrees occ ∙ rw found (rw buf)

  -- Over a consistent window, ConsumeTouchdown either answers something else than `consumed` and
  -- changes nothing at all, or it answers `consumed` and the Touchdown leaves the window: it was
  -- in it and is not any more, the count falls by one, and no other Touchdown's membership
  -- changes.
  pub consume_touchdown_effect :
      (occ instance_id attempt : String) (c : Carousel)
      → IsConsistent c
      → let r = consume_touchdown cfg occ instance_id attempt c in
        ((r.0.0 ≢ ack_consumed) × (r.1 ≡ c)) ⊎ ((r.0.0 ≡ ack_consumed) × Leaves occ c r.1)
  unfolding consume_now emit
  consume_touchdown_effect occ instance_id attempt c h =
      consume_cases
        (λ r. ((r.0.0 ≢ ack_consumed) × (r.1 ≡ c)) ⊎ ((r.0.0 ≡ ack_consumed) × Leaves occ c r.1))
        cfg occ instance_id attempt c (λ r n. inl (n, refl))
        λ o td _ _ found buf _. inr (refl, del-Leaves occ c _ td h found buf refl)

  -- Over a consistent window, DiscardTouchdown either answers something else than `discarded` and
  -- changes nothing at all, or it answers `discarded` and the Touchdown leaves the window: it was
  -- in it and is not any more, the count falls by one, and no other Touchdown's membership
  -- changes.
  pub discard_touchdown_effect :
      (occ reason : String) (c : Carousel)
      → IsConsistent c
      → let r = discard_touchdown cfg occ reason c in
        ((r.0.0 ≢ ack_discarded) × (r.1 ≡ c)) ⊎ ((r.0.0 ≡ ack_discarded) × Leaves occ c r.1)
  unfolding discard_now emit
  discard_touchdown_effect occ reason c h =
      discard_cases
        (λ r. ((r.0.0 ≢ ack_discarded) × (r.1 ≡ c)) ⊎ ((r.0.0 ≡ ack_discarded) × Leaves occ c r.1))
        cfg occ reason c (λ r n. inl (n, refl))
        λ o td _ found buf. inr (refl, del-Leaves occ c _ td h found buf refl)

  -- Over a consistent window, a consume of a known occurrence in the window, with a named attempt
  -- and the occurrence's own evaluation instance, is answered `consumed` for that attempt.
  pub consume_touchdown_buffered :
      (occ instance_id attempt : String) (c : Carousel) (o : Occurrence)
      → IsConsistent c
      → attempt ≢ ""
      → get occ c.occs ≡ some o
      → instance_id ≡ evaluation_instance_id cfg o
      → in_window c occ ≡ true
      → (consume_touchdown cfg occ instance_id attempt c).0 ≡ (ack_consumed, attempt)
  unfolding consume_touchdown in_window is_buffered
  consume_touchdown_buffered occ instance_id attempt c o h named known same inside =
      by_cell (get occ c.touchdowns) refl
    where
      by_cell :
          (mt : Option TouchdownCell)
          → get occ c.touchdowns ≡ mt
          → (consume_touchdown cfg occ instance_id attempt c).0 ≡ (ack_consumed, attempt)
      by_cell none e = ground (arith, e, h.agrees occ, inside)
      by_cell (some td) e = ground (
        arith,
        e,
        known,
        same,
        named,
        h.agrees occ,
        inside,
        string_eq.beq_iff attempt "",
        string_eq.beq_iff instance_id (evaluation_instance_id cfg o),
      )
