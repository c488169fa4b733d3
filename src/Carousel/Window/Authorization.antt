-- ===== src/Carousel/Window/Authorization.antt =====
-- Who may call the Host for a Touchdown: at most the attempt that consumed it.
use subsea_cable_runtime.Base.{
  ◌≡◌, refl, Bool, true, false, Option, none, some, String, List, [], ◌∷◌, string_eq, get, get-put,
  arith, All, beq_self,
}
use subsea_cable_runtime.Carousel.{Carousel, Config, TouchdownCell, consumed, drain, emit}
use subsea_cable_runtime.Carousel.Demand.{demand, withdraw, set_prefetch}
use subsea_cable_runtime.Carousel.Touchdown.{
  authorizes, consume_touchdown, discard_touchdown, consume_now, discard_now,
}
use subsea_cable_runtime.Carousel.Calls.{
  Call, opens_root, demands, withdraws, sets_prefetch, drains, consumes, discards, replenishes,
  step, run,
}
use subsea_cable_runtime.Carousel.Window.Acks.{consume_cases, discard_cases}

-- The calls of the Scheduler that expose no occurrence.
abbrev pub is_boundary : Call → Bool
is_boundary (opens_root u) = false
is_boundary (replenishes values f) = false
is_boundary (demands id) = true
is_boundary (withdraws id) = true
is_boundary (sets_prefetch n) = true
is_boundary drains = true
is_boundary (consumes occ i a) = true
is_boundary (discards occ r) = true

-- The Touchdown is consumed, by that attempt.
abbrev pub ConsumedBy : String → String → Carousel → Type 0
ConsumedBy occ a c = get occ c.touchdowns ≡ some (record { state = consumed; consumed_by = a })

module _ (cfg : Config) where
  consume-ConsumedBy :
      (occ a id i b : String) (c : Carousel)
      → ConsumedBy occ a c
      → ConsumedBy occ a (consume_touchdown cfg id i b c).1
  consume-ConsumedBy occ a id i b c h =
      consume_cases (λ r. ConsumedBy occ a r.1) cfg id i b c (λ r _. h)
        λ o td _ _ found buf _.
          unfold consume_now emit in
          simp get-put (ground (arith, h, found, buf, string_eq.beq_iff id occ))

  discard-ConsumedBy :
      (occ a id reason : String) (c : Carousel)
      → ConsumedBy occ a c
      → ConsumedBy occ a (discard_touchdown cfg id reason c).1
  discard-ConsumedBy occ a id reason c h =
      discard_cases (λ r. ConsumedBy occ a r.1) cfg id reason c (λ r _. h)
        λ o td _ found buf.
          unfold discard_now emit in
          simp get-put (ground (arith, h, found, buf, string_eq.beq_iff id occ))

  pub step-ConsumedBy :
      (occ a : String) (c : Carousel) (x : Call)
      → is_boundary x ≡ true
      → ConsumedBy occ a c
      → ConsumedBy occ a (step cfg c x)
  unfolding step demand withdraw set_prefetch drain
  step-ConsumedBy occ a c (opens_root u) b h = cc
  step-ConsumedBy occ a c (replenishes values f) b h = cc
  step-ConsumedBy occ a c (demands id) b h = ground arith
  step-ConsumedBy occ a c (withdraws id) b h = ground arith
  step-ConsumedBy occ a c (sets_prefetch n) b h = h
  step-ConsumedBy occ a c drains b h = h
  step-ConsumedBy occ a c (consumes id i att) b h = consume-ConsumedBy occ a id i att c h
  step-ConsumedBy occ a c (discards id reason) b h = discard-ConsumedBy occ a id reason c h

  run-ConsumedBy :
      (occ a : String) (c : Carousel) (xs : List Call)
      → All (λ x. is_boundary x ≡ true) xs
      → ConsumedBy occ a c
      → ConsumedBy occ a (run cfg c xs)
  unfolding run
  run-ConsumedBy occ a c [] b h = h
  run-ConsumedBy occ a c (x ∷ xs) b h =
      run-ConsumedBy occ a (step cfg c x) xs b.1 (step-ConsumedBy occ a c x b.0 h)

  -- An authorizing answer means that the Touchdown is now consumed by the attempt that asked.
  pub authorizes-ConsumedBy :
      (occ i a : String) (c : Carousel)
      → authorizes (consume_touchdown cfg occ i a c).0.0 ≡ true
      → ConsumedBy occ a (consume_touchdown cfg occ i a c).1
  unfolding consume_touchdown authorizes emit
  authorizes-ConsumedBy occ i a c h = by_cell (get occ c.touchdowns) refl
    where
      by_cell :
          (mt : Option TouchdownCell)
          → get occ c.touchdowns ≡ mt
          → ConsumedBy occ a (consume_touchdown cfg occ i a c).1
      by_cell none e = ground (arith, e, h)
      by_cell (some td) e = ground (
        arith,
        e,
        h,
        beq_self occ,
        string_eq.beq_iff td.consumed_by a,
        get-put occ occ (record { state = consumed; consumed_by = a }) c.touchdowns,
      )

  -- A consumed Touchdown authorizes no other attempt.
  ConsumedBy-authorizes :
      (occ a i b : String) (c : Carousel)
      → ConsumedBy occ a c
      → authorizes (consume_touchdown cfg occ i b c).0.0 ≡ true
      → b ≡ a
  unfolding consume_touchdown authorizes
  ConsumedBy-authorizes occ a i b c h auth = ground (arith, h, string_eq.beq_iff a b)

  -- Once an attempt was authorized for a Touchdown, no other attempt is, whatever the Scheduler
  -- demands, withdraws, drains, consumes, discards or reconfigures in between. The calls that
  -- expose occurrences, OpenRoot and Replenish, are excluded.
  pub authorized_once :
      (occ i a j b : String) (c : Carousel) (xs : List Call)
      → All (λ x. is_boundary x ≡ true) xs
      → authorizes (consume_touchdown cfg occ i a c).0.0 ≡ true
      → authorizes
          (consume_touchdown cfg occ j b (run cfg (consume_touchdown cfg occ i a c).1 xs)).0.0
        ≡ true
      → b ≡ a
  authorized_once occ i a j b c xs quiet first second =
      ConsumedBy-authorizes occ a j b _
        (run-ConsumedBy occ a _ xs quiet (authorizes-ConsumedBy occ i a c first)) second
