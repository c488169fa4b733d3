-- ===== src/Carousel/Replenish.antt =====
-- OpenRoot, blockReason and Replenish of carousel/carousel.go. The two loops of Replenish take fuel
-- for their rounds.
pub mod Rounds
pub mod Target
use subsea_cable_runtime.Base.{
  ℕ, zero, suc, ◌-◌, Bool, true, false, ◌&&◌, ◌||◌, not, Option, none, some, String, List, [], ◌∷◌,
  ◌++◌, map, ◌==◌, string_eq, if◌then◌else◌, get, put, del, show_ℕ, ◌<>◌, ltb, length, is_some, leb,
  str_join, ℤ,
}
use subsea_cable_runtime.Diag.{validation, diagnostic, new, Res, ok, err}
use subsea_cable_runtime.Syntax.{exprs_len}
use subsea_cable_runtime.Expr.{Env, unit}
use subsea_cable_runtime.Sema.{SourceUnit, RootName, PrefixMatch}
use subsea_cable_runtime.Codebase.{resolve_prefix}
use subsea_cable_runtime.Carousel.{
  Carousel, Config, Occurrence, ValueSource, blank, kind_goal, undeduced, is_undeduced, deducible,
  is_demanded, emit, Event, event, EventKind, prefetch_blocked, prefetch_exhausted,
  prefetch_target_reached, atomic_prefetch_overshoot, window_count, drain, register, occurrences,
}
use subsea_cable_runtime.Carousel.Deduce.{deduce, report_blocked, by_demand, by_prefetch}

root_occurrence : SourceUnit → Occurrence
root_occurrence u =
    let r = u.root in
    record blank {
      id = "r";
      kind = kind_goal;
      state = undeduced;
      name = r.ident;
      arity = exprs_len r.args;
      ref_kind = "unqualified";
      arg_exprs = r.args;
      env = unit u.values;
      lineage = r.ident <> ("/" <> show_ℕ (exprs_len r.args));
    }

pin_root : SourceUnit → List PrefixMatch → Res Occurrence
unfolding root_occurrence
pin_root u (m ∷ []) =
    ok (record (root_occurrence u) { ref_kind = "hash-qualified"; pinned_hash = m.hash })
pin_root u _ = err (diagnostic (new "HashNotFound" validation (some u.root.span)))

registered : Config → Carousel → Res Occurrence → Res String × Carousel
unfolding register
registered cfg c (ok o) = (ok o.id, register cfg o c)
registered cfg c (err e) = (err e, c)

-- OpenRoot; the occurrence that it returns is the one with the ID.
unfoldable pub open_root : Config → SourceUnit → Carousel → Res String × Carousel
unfolding pin_root registered root_occurrence
open_root cfg u c = registered cfg c (
    if u.root.hash == ""
    then ok (root_occurrence u)
    else pin_root u (resolve_prefix c.codebase u.root.ident u.root.hash))

-- What holds of the state as it was, and of it with an occurrence more, holds after OpenRoot.
pub open_root_cases {ℓ} :
    (P : Carousel → Type ℓ) (cfg : Config) (u : SourceUnit) (c : Carousel)
    → P c
    → ((o : Occurrence) → P (register cfg o c))
    → P (open_root cfg u c).1
unfolding open_root
open_root_cases P cfg u c h f = by_root _
  where
    by_root : (r : Res Occurrence) → P (registered cfg c r).1
    by_root (ok o) = f o
    by_root (err e) = h

-- blockReason
unfoldable pub block_reason : ValueSource → Occurrence → String
block_reason values o =
    if o.input == "" || is_some (values o.input) then "" else "pendingValue:" <> o.input

-- The loop goes on, and the fuel does not cover it.
unfoldable pub unfinish : Carousel → Carousel
unfinish c = record c { unfinished = true }

module _ (cfg : Config) (values : ValueSource) where
  -- A demanded occurrence is deduced, or reported as blocked. The flag is `progress`.
  unfoldable pub demand_one : Occurrence → Bool × Carousel → Bool × Carousel
  unfolding block_reason deduce report_blocked
  demand_one o (progress, c) =
      if block_reason values o == ""
      then (true, (deduce cfg values o by_demand c).1)
      else (progress, report_blocked o.id (block_reason values o) c)

  demand_found : Option Occurrence → Bool × Carousel → Bool × Carousel
  unfolding demand_one is_demanded
  demand_found none (progress, c) = (progress, c)
  demand_found (some o) (progress, c) =
      if is_demanded c o.id && is_undeduced o.state
      then demand_one o (progress, c)
      else (progress, c)

  -- One pass over the occurrences that were exposed when it began.
  unfoldable pub demand_pass : List String → Bool × Carousel → Bool × Carousel
  unfolding demand_found
  demand_pass [] (progress, c) = (progress, c)
  demand_pass (id ∷ ids) (progress, c) =
      demand_pass ids (demand_found (get id c.occs) (progress, c))

  unfoldable pub demand_rounds : ℕ → Carousel → Carousel
  unfolding demand_pass unfinish
  demand_rounds zero c =
      let (progress, c') = demand_pass c.order (false, c) in if progress then unfinish c' else c'
  demand_rounds (suc f) c =
      let (progress, c') = demand_pass c.order (false, c) in
      let rest = demand_rounds f c' in if progress then rest else c'

  -- The first undeduced occurrence that nobody demands and nothing blocks, or the reasons of those
  -- that are blocked.
  candidate_of : List Occurrence → Carousel → List String → Option Occurrence × List String
  unfolding deducible is_demanded block_reason
  candidate_of [] c reasons = (none, reasons)
  candidate_of (o ∷ os) c reasons =
      let skip = candidate_of os c reasons in
      let blocked = candidate_of os c (reasons ++ (o.id <> ("=" <> block_reason values o)) ∷ []) in
      if not (deducible o) || not (is_undeduced o.state) || is_demanded c o.id
      then skip
      else if block_reason values o == ""
      then (some o, reasons)
      else blocked

  kind_text : EventKind → String
  kind_text prefetch_blocked = "PrefetchBlocked"
  kind_text _ = "PrefetchExhausted"

  no_candidate : List String → EventKind × String
  no_candidate [] = (prefetch_exhausted, "no undeduced candidate")
  no_candidate (r ∷ rs) = (prefetch_blocked, str_join "," (r ∷ rs))

  -- The report of a prefetch that finds no candidate, once until something changes.
  report_starved : EventKind × String → Carousel → Carousel
  unfolding emit kind_text window_count
  report_starved (kind, reason) c =
      let key = kind_text kind <> (reason <> show_ℕ (window_count c)) in
      if key == c.last_prefix
      then c
      else emit (record (event kind "") { reason = reason; count = c.prefetch - window_count c })
          (record c { last_prefix = key })

  overshoot : ℕ → String → Carousel → Carousel
  unfolding emit window_count
  overshoot before id c =
      if ltb before c.prefetch && ltb c.prefetch (window_count c)
      then emit
          (record (event atomic_prefetch_overshoot id) { count = window_count c - c.prefetch }) c
      else c

  after_prefetch : Occurrence → ℕ → Bool → Bool × Carousel → Bool × Carousel
  unfolding overshoot
  after_prefetch o before did (true, c) = (true, overshoot before o.id c)
  after_prefetch o before did (false, c) = (did, c)

  target_reached : Bool × Carousel → Carousel
  unfolding emit window_count
  target_reached (true, c) =
      emit (record (event prefetch_target_reached "") { count = window_count c })
        (record c { last_prefix = "" })
  target_reached (false, c) = c

  -- One turn of the prefetch loop; `next` is the rest of the loop.
  prefetch_turn :
      (Bool → Carousel → Carousel) → Bool → Carousel → Option Occurrence × List String → Carousel
  unfolding report_starved no_candidate after_prefetch deduce window_count
  prefetch_turn next did c (none, reasons) = report_starved (no_candidate reasons) c
  prefetch_turn next did c (some o, reasons) =
      let (did', c') = after_prefetch o (window_count c) did (deduce cfg values o by_prefetch c) in
      next did' c'

  unfoldable pub prefetch_rounds : ℕ → Bool → Carousel → Carousel
  unfolding candidate_of prefetch_turn target_reached window_count unfinish
  prefetch_rounds zero did c =
      if ltb (window_count c) c.prefetch then unfinish c else target_reached (did, c)
  prefetch_rounds (suc f) did c =
      if ltb (window_count c) c.prefetch
      then prefetch_turn (prefetch_rounds f) did c (candidate_of (occurrences c) c [])
      else target_reached (did, c)

  -- Replenish
  unfoldable pub replenish : ℕ → Carousel → List Event × Carousel
  unfolding demand_rounds prefetch_rounds drain
  replenish fuel c = drain (prefetch_rounds fuel false (demand_rounds fuel c))
