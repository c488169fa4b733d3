-- ===== src/Carousel/Replenish/Target.antt =====
-- The prefetch target bounds speculation.
use subsea_cable_runtime.Base.{
  ℕ, zero, suc, ◌≡◌, ◌≤◌, refl, ◌∙◌, ap, Bool, false, Option, none, some, String, List, [], ◌∷◌,
  get, arith, string_eq,
}
use subsea_cable_runtime.Carousel.{
  Carousel, Config, Occurrence, ValueSource, window_count, is_demanded, drain,
}
use subsea_cable_runtime.Carousel.Replenish.{
  replenish, demand_rounds, demand_pass, demand_found, prefetch_rounds,
}

module _ (cfg : Config) (values : ValueSource) (c : Carousel) where
  demand_found-idle :
      (mo : Option Occurrence) (p : Bool)
      → c.demanded ≡ []
      → demand_found cfg values mo (p, c) ≡ (p, c)
  unfolding demand_found is_demanded get
  demand_found-idle none p h = refl
  demand_found-idle (some o) p h = rw h

  demand_pass-idle :
      (ids : List String) (p : Bool) → c.demanded ≡ [] → demand_pass cfg values ids (p, c) ≡ (p, c)
  unfolding demand_pass
  demand_pass-idle [] p h = refl
  demand_pass-idle (id ∷ ids) p h =
      ap (demand_pass cfg values ids) (demand_found-idle (get id c.occs) p h)
      ∙ demand_pass-idle ids p h

  demand_rounds-idle : (f : ℕ) → c.demanded ≡ [] → demand_rounds cfg values f c ≡ c
  unfolding demand_rounds
  demand_rounds-idle zero h = rw (demand_pass-idle c.order false h)
  demand_rounds-idle (suc f) h = rw (demand_pass-idle c.order false h)

  prefetch_rounds-full :
      (f : ℕ) → c.prefetch ≤ window_count c → prefetch_rounds cfg values f false c ≡ c
  unfolding prefetch_rounds
  prefetch_rounds-full zero h = ground (arith, h)
  prefetch_rounds-full (suc f) h = ground (arith, h)

  -- While nothing is demanded and the window holds its target or more, Replenish deduces nothing:
  -- it does no more than Drain.
  pub replenish-full :
      (f : ℕ) → c.demanded ≡ [] → c.prefetch ≤ window_count c → replenish cfg values f c ≡ drain c
  unfolding replenish
  replenish-full f idle full = rw (demand_rounds-idle f idle, prefetch_rounds-full f full)
