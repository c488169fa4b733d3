-- ===== src/Carousel/Deduce/Atomic.antt =====
-- A deduction is all or nothing: what a failed one leaves alone, and what a committed one records.
use subsea_cable_runtime.Base.{
  ◌≡◌, ◌≢◌, ◌⊎◌, refl, sym, ap, subst, ◌∙◌, true, false, none, String, List, [], ◌∷◌, ◌==◌,
  string_eq, get, get-put, arith, Bool-cases, inl, inr,
}
use subsea_cable_runtime.Diag.{Err, ok}
use subsea_cable_runtime.Value.{Value}
use subsea_cable_runtime.Codebase.{Codebase, DeductionRecord, append_deduction}
use subsea_cable_runtime.Codebase.Ledger.{IsIndexed, append_deduction_lem, Refuses, Appends}
use subsea_cable_runtime.Carousel.{Carousel, Config, Occurrence, ValueSource, register}
use subsea_cable_runtime.Carousel.Deduce.{
  Cause, by_demand, by_prefetch, Reduction, deduce, fail, report_blocked, expose, mark_committed,
  register_all, over_target, make_record,
}
use subsea_cable_runtime.Carousel.Deduce.Cases.{deduce_cases}

-- Nothing was exposed, published or recorded, and no occurrence but the one with the ID changed.
pub record Untouched (id : String) (c c' : Carousel) : Type 0 where
  pub same_codebase : c'.codebase ≡ c.codebase
  pub same_order : c'.order ≡ c.order
  pub same_window : c'.window ≡ c.window
  pub same_touchdowns : c'.touchdowns ≡ c.touchdowns
  pub same_others : (j : String) → (id ≡ j) ⊎ (get j c'.occs ≡ get j c.occs)

report_blocked-Untouched :
    (id reason : String) (c : Carousel) → Untouched id c (report_blocked id reason c)
unfolding report_blocked
report_blocked-Untouched id reason c = record {
  same_codebase = ground arith;
  same_order = ground arith;
  same_window = ground arith;
  same_touchdowns = ground arith;
  same_others = λ j. inr (ground arith);
}

fail-Untouched :
    (o : Occurrence) (cause : Cause) (e : Err) (c : Carousel) → Untouched o.id c (fail o cause e c)
unfolding fail
fail-Untouched o cause e c = record {
  same_codebase = refl;
  same_order = refl;
  same_window = refl;
  same_touchdowns = refl;
  same_others = λ j. elim (Bool-cases (o.id == j)) [
    | inl same ↦ inl ((string_eq.beq_iff o.id j).0 same)
    | inr other ↦ inr (get-put o.id j _ c.occs ∙ rw other)
  ];
}

-- A deduction that does not commit leaves the Codebase, the exposure order, the window, the
-- Touchdowns and every other occurrence as they were.
pub deduce_failure_atomic :
    (cfg : Config) (values : ValueSource) (o : Occurrence) (cause : Cause) (c : Carousel)
    → (deduce cfg values o cause c).0 ≡ false
    → Untouched o.id c (deduce cfg values o cause c).1
deduce_failure_atomic cfg values o cause c =
    deduce_cases (λ r. r.0 ≡ false → Untouched o.id c r.1) cfg o cause c
      (λ occ _. report_blocked-Untouched o.id _ c) (λ e _. fail-Untouched o cause e c)
      (λ vs r rec base q e. cc) values

module _ (cfg : Config) where
  pub register-codebase : (o : Occurrence) (c : Carousel) → (register cfg o c).codebase ≡ c.codebase
  unfolding register
  register-codebase o c = ground arith

  register_all-codebase :
      (os : List Occurrence) (c : Carousel) → (register_all cfg os c).codebase ≡ c.codebase
  unfolding register_all
  register_all-codebase [] c = refl
  register_all-codebase (o ∷ os) c =
      register_all-codebase os (register cfg o c) ∙ register-codebase o c

  over_target-codebase :
      (cause : Cause) (id : String) (os : List Occurrence) (c : Carousel)
      → (over_target cfg cause id os c).codebase ≡ c.codebase
  unfolding over_target
  over_target-codebase by_prefetch id os c = refl
  over_target-codebase by_demand id os c = ground arith

  mark_committed-codebase :
      (o : Occurrence) (cause : Cause) (r : Reduction) (rec : DeductionRecord) (c : Carousel)
      → (mark_committed cfg o cause r rec c).codebase ≡ c.codebase
  unfolding mark_committed
  mark_committed-codebase o cause r rec c = ground arith

  expose-codebase :
      (o : Occurrence) (cause : Cause) (r : Reduction) (rec : DeductionRecord) (c : Carousel)
      → (expose cfg o cause r rec c).codebase ≡ c.codebase
  unfolding expose
  expose-codebase o cause r rec c =
      let os = r.staged.0 ∷ r.staged.1 in
      let marked = mark_committed cfg o cause r rec c in
      over_target-codebase cause o.id os (register_all cfg os marked)
      ∙ register_all-codebase os marked
      ∙ mark_committed-codebase o cause r rec c

  -- A deduction that commits has appended one record, of this run and this occurrence.
  pub record Recorded (o : Occurrence) (c c' : Carousel) : Type 0 where
    pub entry : DeductionRecord
    pub of_run : entry.run_id ≡ cfg.run_id
    pub of_occurrence : entry.occurrence ≡ o.id
    pub appended : Appends c.codebase entry (append_deduction c.codebase entry)
    pub base : (append_deduction c.codebase entry).1 ≡ c'.codebase

  committed-Recorded :
      (o : Occurrence) (cause : Cause) (c c' : Carousel) (vs : List Value) (r : Reduction)
      (rec : DeductionRecord) (base : Codebase)
      → IsIndexed c.codebase
      → append_deduction c.codebase (make_record cfg o cause vs r) ≡ (ok rec, base)
      → c'.codebase ≡ base
      → Recorded o c c'
  unfolding make_record
  committed-Recorded o cause c c' vs r rec base h q b = record {
    entry = make_record cfg o cause vs r;
    of_run = refl;
    of_occurrence = refl;
    appended = by_answer (append_deduction_lem c.codebase (make_record cfg o cause vs r) h);
    base = ap (λ x. x.1) q ∙ sym b;
  }
    where
      by_answer :
          (Refuses c.codebase
              (make_record cfg o cause vs r)
              (append_deduction c.codebase (make_record cfg o cause vs r)))
            ⊎ (Appends c.codebase
                (make_record cfg o cause vs r)
                (append_deduction c.codebase (make_record cfg o cause vs r)))
          → Appends c.codebase
              (make_record cfg o cause vs r)
              (append_deduction c.codebase (make_record cfg o cause vs r))
      by_answer (inl no') = cc (no'.answer, q)
      by_answer (inr yes') = yes'

  -- Over an indexed ledger, a deduction that reports success has committed exactly one new
  -- record, of this run and of its occurrence, for which there was none; the Codebase afterwards
  -- is the one that AppendDeduction returned for it.
  pub deduce-Recorded :
      (values : ValueSource) (o : Occurrence) (cause : Cause) (c : Carousel)
      → IsIndexed c.codebase
      → (deduce cfg values o cause c).0 ≡ true
      → Recorded o c (deduce cfg values o cause c).1
  deduce-Recorded values o cause c h =
      deduce_cases (λ x. x.0 ≡ true → Recorded o c x.1) cfg o cause c (λ occ e. cc) (λ e' e. cc)
        (λ vs r rec base q e.
          committed-Recorded o cause c _ vs r rec base h q
            (expose-codebase o cause r rec (record c { codebase = base })))
        values

  -- What AppendDeduction keeps of the Codebase, a deduction keeps.
  pub deduce-keeps :
      (P : Codebase → Type 0) (values : ValueSource) (o : Occurrence) (cause : Cause) (c : Carousel)
      → ((b : Codebase) (r : DeductionRecord) → P b → P (append_deduction b r).1)
      → P c.codebase
      → P (deduce cfg values o cause c).1.codebase
  deduce-keeps P values o cause c grows h =
      deduce_cases (λ x. P x.1.codebase) cfg o cause c
        (λ occ. rw (report_blocked-Untouched o.id _ c).same_codebase h)
        (λ e. rw (fail-Untouched o cause e c).same_codebase h)
        (λ vs r rec base q.
          rw (expose-codebase o cause r rec (record c { codebase = base }))
            (subst P (ap (λ x. x.1) q) (grows c.codebase _ h)))
        values

-- While the output routed into an occurrence is unresolved, deducing the occurrence reports no
-- success and changes neither the occurrences, the demand, the Codebase, the window nor the
-- exposure order.
pub value_barrier :
    (cfg : Config) (values : ValueSource) (o : Occurrence) (cause : Cause) (c : Carousel)
    → o.input ≢ ""
    → values o.input ≡ none
    → let r = deduce cfg values o cause c in
      (r.0 ≡ false)
      × (r.1.occs ≡ c.occs)
      × (r.1.demanded ≡ c.demanded)
      × (r.1.codebase ≡ c.codebase)
      × (r.1.window ≡ c.window)
      × (r.1.order ≡ c.order)
unfolding deduce report_blocked
value_barrier cfg values o cause c routes open' = ground (arith, string_eq.beq_iff o.input "")
