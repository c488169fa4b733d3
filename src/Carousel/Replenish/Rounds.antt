-- ===== src/Carousel/Replenish/Rounds.antt =====
-- The rule for Replenish: what every deduction keeps, the two loops keep.
use subsea_cable_runtime.Base.{
  ℕ, zero, suc, Bool, true, false, ◌&&◌, Option, none, some, String, List, [], ◌∷◌, ◌==◌, string_eq,
  get, ◌<>◌, show_ℕ, ltb, Bool-cases, inl, inr,
}
use subsea_cable_runtime.Carousel.{
  Carousel, Config, Occurrence, ValueSource, emit, Event, EventKind, is_demanded, is_undeduced,
  window_count, occurrences, drain,
}
use subsea_cable_runtime.Carousel.Deduce.{deduce, report_blocked, by_demand, by_prefetch, Cause}
use subsea_cable_runtime.Carousel.Replenish.{
  block_reason, demand_one, demand_found, demand_pass, demand_rounds, candidate_of, report_starved,
  kind_text, overshoot, after_prefetch, target_reached, prefetch_turn, prefetch_rounds, replenish,
  unfinish,
}

-- A predicate that no deduction, event or report breaks.
pub record Keeps {ℓ} (cfg : Config) (values : ValueSource) (P : Carousel → Type ℓ) : Type ℓ where
  pub deduces :
      (o : Occurrence) (cause : Cause) (c : Carousel) → P c → P (deduce cfg values o cause c).1
  pub reports : (id reason : String) (c : Carousel) → P c → P (report_blocked id reason c)
  pub emits : (e : Event) (c : Carousel) → P c → P (emit e c)
  pub notes : (key : String) (c : Carousel) → P c → P (record c { last_prefix = key })
  pub drains : (c : Carousel) → P c → P (record c { events = [] })
  pub unfinishes : (c : Carousel) → P c → P (record c { unfinished = true })

module _ {ℓ} (cfg : Config) (values : ValueSource) (P : Carousel → Type ℓ)
    (k : Keeps cfg values P) where
  demand_one-keeps :
      (o : Occurrence) (b : Bool) (c : Carousel) → P c → P (demand_one cfg values o (b, c)).1
  unfolding demand_one
  demand_one-keeps o b c h = elim (Bool-cases (block_reason values o == "")) [
    | inl e ↦ rw e (k.deduces o by_demand c h)
    | inr e ↦ rw e (k.reports o.id _ c h)
  ]

  demand_found-keeps :
      (mo : Option Occurrence) (b : Bool) (c : Carousel)
      → P c
      → P (demand_found cfg values mo (b, c)).1
  unfolding demand_found
  demand_found-keeps none b c h = h
  demand_found-keeps (some o) b c h =
      elim (Bool-cases (is_demanded c o.id && is_undeduced o.state)) [
        | inl e ↦ rw e (demand_one-keeps o b c h)
        | inr e ↦ rw e h
      ]

  pub demand_pass-keeps :
      (ids : List String) (p : Bool × Carousel) → P p.1 → P (demand_pass cfg values ids p).1
  unfolding demand_pass
  demand_pass-keeps [] (b, c) h = h
  demand_pass-keeps (id ∷ ids) (b, c) h =
      demand_pass-keeps ids (demand_found cfg values (get id c.occs) (b, c))
        (demand_found-keeps (get id c.occs) b c h)

  pub demand_rounds-keeps : (f : ℕ) (c : Carousel) → P c → P (demand_rounds cfg values f c)
  unfolding demand_rounds unfinish
  demand_rounds-keeps zero c h =
      let kept = demand_pass-keeps c.order (false, c) h in
      elim (Bool-cases (demand_pass cfg values c.order (false, c)).0) [
        | inl e ↦ rw e (k.unfinishes _ kept)
        | inr e ↦ rw e kept
      ]
  demand_rounds-keeps (suc f) c h =
      let kept = demand_pass-keeps c.order (false, c) h in
      elim (Bool-cases (demand_pass cfg values c.order (false, c)).0) [
        | inl e ↦ rw e (demand_rounds-keeps f _ kept)
        | inr e ↦ rw e kept
      ]

  report_starved-keeps :
      (kr : EventKind × String) (c : Carousel) → P c → P (report_starved cfg values kr c)
  unfolding report_starved
  report_starved-keeps (kind, reason) c h =
      elim (Bool-cases
        (kind_text cfg values kind <> (reason <> show_ℕ (window_count c)) == c.last_prefix)) [
          | inl e ↦ rw e h
          | inr e ↦ rw e (k.emits _ _ (k.notes _ c h))
        ]

  after_prefetch-keeps :
      (o : Occurrence) (before : ℕ) (did : Bool) (r : Bool × Carousel)
      → P r.1
      → P (after_prefetch cfg values o before did r).1
  unfolding after_prefetch overshoot
  after_prefetch-keeps o before did (false, c) h = h
  after_prefetch-keeps o before did (true, c) h =
      elim (Bool-cases (ltb before c.prefetch && ltb c.prefetch (window_count c))) [
        | inl e ↦ rw e (k.emits _ c h)
        | inr e ↦ rw e h
      ]

  target_reached-keeps : (p : Bool × Carousel) → P p.1 → P (target_reached cfg values p)
  unfolding target_reached
  target_reached-keeps (true, c) h = k.emits _ _ (k.notes "" c h)
  target_reached-keeps (false, c) h = h

  prefetch_turn-keeps :
      (next : Bool → Carousel → Carousel)
      → ((did : Bool) (c : Carousel) → P c → P (next did c))
      → (did : Bool) (c : Carousel) (p : Option Occurrence × List String) → P c
      → P (prefetch_turn cfg values next did c p)
  unfolding prefetch_turn
  prefetch_turn-keeps next keep did c (none, reasons) h = report_starved-keeps _ c h
  prefetch_turn-keeps next keep did c (some o, reasons) h = keep _ _ (
      after_prefetch-keeps o (window_count c) did (deduce cfg values o by_prefetch c)
        (k.deduces o by_prefetch c h))

  pub prefetch_rounds-keeps :
      (f : ℕ) (did : Bool) (c : Carousel) → P c → P (prefetch_rounds cfg values f did c)
  unfolding prefetch_rounds unfinish
  prefetch_rounds-keeps zero did c h = elim (Bool-cases (ltb (window_count c) c.prefetch)) [
    | inr e ↦ rw (e, prefetch_rounds) (target_reached-keeps (did, c) h)
    | inl e ↦ rw (e, prefetch_rounds) (k.unfinishes c h)
  ]
  prefetch_rounds-keeps (suc f) did c h = elim (Bool-cases (ltb (window_count c) c.prefetch)) [
    | inr e ↦ rw (e, prefetch_rounds) (target_reached-keeps (did, c) h)
    | inl e ↦
        rw (e, prefetch_rounds)
          (prefetch_turn-keeps _ (prefetch_rounds-keeps f) did c
            (candidate_of cfg values (occurrences c) c []) h)
  ]

  -- Replenish keeps it, with any fuel.
  pub replenish-keeps : (f : ℕ) (c : Carousel) → P c → P (replenish cfg values f c).1
  unfolding replenish drain
  replenish-keeps f c h = k.drains _ (prefetch_rounds-keeps f false _ (demand_rounds-keeps f c h))
