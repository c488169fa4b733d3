-- ===== src/Runtime/Moves/Acts.antt =====
-- The combinators of acts, and the moves that the simplest acts are.
use subsea_cable_runtime.Base.{
  ℕ, ℤ, suc, ◌+◌, ◌<◌, ◌≤◌, Bool, true, false, not, ◌≡◌, refl, sym, ◌∙◌, ap, Option, none, some,
  String, List, [], ◌∷◌, get, put, del, string_eq, length, if◌then◌else◌, ltb, is_some, Bool-cases,
  Option-cases, inl, inr, arith,
}
use subsea_cable_runtime.Diag.{Diagnostic}
use subsea_cable_runtime.Carousel.{Occurrence}
use subsea_cable_runtime.Carousel.Calls.{Call}
use subsea_cable_runtime.Carousel.Window.Authorization.{is_boundary}
use subsea_cable_runtime.Runtime.Trace.{TraceEvent, trace_event}
use subsea_cable_runtime.Runtime.Policy.{is_terminal}
use subsea_cable_runtime.Runtime.State.{Run, Scope, ItemKind, Settings}
use subsea_cable_runtime.Runtime.Act.{
  after, Act, skip, ◌▷◌, asking, when, choose, on_some, each, scope_of, occurrence_of, with_scope,
  with_occurrence, log, note, note_diag, put_scope, edit, tell, push, exhaust,
}
use subsea_cable_runtime.Runtime.Moves.{
  Mode, is_loud, is_outer, is_whole, Fits, keeps_outcome, changes, exposes, Move, logs, calls, puts,
  resolves, pushes, pops, marks, lands, launches, finishes, counts, hosts, gates, exhausts, Evolves,
  here, next,
}

-- A louder mode admits what a quieter one does.
pub Fits-loud :
    {S : Type 0} {m n : Mode} {old : Option (Scope S)} {s : Scope S}
    → (is_loud m ≡ true → is_loud n ≡ true)
    → Fits m old s
    → Fits n old s
Fits-loud h (keeps_outcome t a b c d) = keeps_outcome t a b c d
Fits-loud h (changes t a b c) = changes t (h a) b c
Fits-loud h (exposes a b c) = exposes (h a) b c

module _ {H S : Type 0} {set : Settings H S} where
  pub Evolves-trans :
      {m : Mode} {r s t : Run H S} → Evolves set m r s → Evolves set m s t → Evolves set m r t
  Evolves-trans a here = a
  Evolves-trans a (next b x) = next (Evolves-trans a b) x

  pub one : {m : Mode} {r s : Run H S} → Move set m r s → Evolves set m r s
  one x = next here x

  -- A louder mode has the moves of a quieter one.
  pub Move-louder :
      {m n : Mode} {r s : Run H S}
      → (is_loud m ≡ true → is_loud n ≡ true)
      → (is_outer m ≡ true → is_outer n ≡ true)
      → (is_whole m ≡ true → is_whole n ≡ true)
      → Move set m r s
      → Move set n r s
  Move-louder l o h (logs e x) = logs e x
  Move-louder l o h (calls c (inl b) x) = calls c (inl b) x
  Move-louder l o h (calls c (inr b) x) = calls c (inr (o b)) x
  Move-louder l o h (puts id s f x) = puts id s (Fits-loud l f) x
  Move-louder l o h (resolves id s a b x) = resolves id s a b x
  Move-louder l o h (pushes it a x) = pushes it a x
  Move-louder l o h (pops it rest a b x) = pops it rest (o a) b x
  Move-louder l o h (marks id at a x) = marks id at a x
  Move-louder l o h (lands id x) = lands id x
  Move-louder l o h (launches at a b q x) = launches at (o a) b q x
  Move-louder l o h (finishes a b v w x) = finishes a b v w x
  Move-louder l o h (counts w n x) = counts (h w) n x
  Move-louder l o h (hosts k x) = hosts k x
  Move-louder l o h (gates k g a x) = gates k g a x
  Move-louder l o h (exhausts x) = exhausts x

  pub Evolves-louder :
      {m n : Mode} {r s : Run H S}
      → (is_loud m ≡ true → is_loud n ≡ true)
      → (is_outer m ≡ true → is_outer n ≡ true)
      → (is_whole m ≡ true → is_whole n ≡ true)
      → Evolves set m r s
      → Evolves set n r s
  Evolves-louder l o h here = here
  Evolves-louder l o h (next a x) = next (Evolves-louder l o h a) (Move-louder l o h x)

-- What an act is proved under: a condition on the run before it that `base` moves keep, and the
-- mode of the moves that it makes.
pub record Regime {H S : Type 0} (set : Settings H S) : Type 1 where
  pub base : Mode
  pub mode : Mode
  pub Pre : Run H S → Type 0
  pub below : {r s : Run H S} → Evolves set base r s → Evolves set mode r s
  pub keeps : {r s : Run H S} → Evolves set base r s → Pre r → Pre s

-- The regime without a condition.
abbrev pub plain : {H S : Type 0} {set : Settings H S} → Mode → Regime set
plain m = record { base = m; mode = m; Pre = λ r. Unit; below = λ e. e; keeps = λ e u. u }

-- An act that is a sequence of moves of the mode, from any run.
pub record Safe {H S : Type 0} (set : Settings H S) (m : Mode) (a : Act H S) : Type 0 where
  pub moves : (r : Run H S) → Evolves set m r (after a r)

-- The same from one run.
pub record From {H S : Type 0} (set : Settings H S) (m : Mode) (r : Run H S) (a : Act H S)
    : Type 0 where
  pub moves : Evolves set m r (after a r)

-- The same from the runs of a regime.
pub record Holds {H S : Type 0} (set : Settings H S) (g : Regime set) (a : Act H S) : Type 0 where
  pub moves : (r : Run H S) → g.Pre r → Evolves set g.mode r (after a r)

module _ {H S : Type 0} {set : Settings H S} where
  module _ {g : Regime set} where
    pub Safe-Holds : {a : Act H S} → Safe set g.base a → Holds set g a
    Safe-Holds h = record { moves = λ r p. g.below (h.moves r) }

    pub mode-Holds : {a : Act H S} → Safe set g.mode a → Holds set g a
    mode-Holds h = record { moves = λ r p. h.moves r }

    pub skip-Holds : Holds set g skip
    unfolding skip after
    skip-Holds = record { moves = λ r p. here }

    pub then-Holds : {a b : Act H S} → Safe set g.base a → Holds set g b → Holds set g (a ▷ b)
    unfolding ◌▷◌ after
    then-Holds {a} ha hb = record {
      moves = λ r p.
          Evolves-trans (g.below (ha.moves r)) (hb.moves (after a r) (g.keeps (ha.moves r) p));
    }

    pub Holds-then : {a b : Act H S} → Holds set g a → Safe set g.mode b → Holds set g (a ▷ b)
    unfolding ◌▷◌ after
    Holds-then {a} ha hb = record {
      moves = λ r p. Evolves-trans (ha.moves r p) (hb.moves (after a r));
    }

    pub From-then :
        {r : Run H S} {a b : Act H S}
        → From set g.mode r a
        → g.Pre (after a r)
        → Holds set g b
        → From set g.mode r (a ▷ b)
    unfolding ◌▷◌ after
    From-then {r} {a} ha p hb = record { moves = Evolves-trans ha.moves (hb.moves (after a r) p) }

    pub Holds-From : {r : Run H S} {a : Act H S} → g.Pre r → Holds set g a → From set g.mode r a
    Holds-From {r} p h = record { moves = h.moves r p }

    pub asking-Holds {ℓ} :
        {A : Type ℓ} (f : Run H S → A) {k : A → Act H S}
        → ((x : A) → Holds set g (k x))
        → Holds set g (asking f k)
    unfolding asking after
    asking-Holds f {k} h = record { moves = λ r p. (h (f r)).moves r p }

    pub when-Holds : (b : Bool) {a : Act H S} → Holds set g a → Holds set g (when b a)
    unfolding when
    when-Holds true h = h
    when-Holds false h = skip-Holds

    pub choose-Holds :
        (b : Bool) {a c : Act H S} → Holds set g a → Holds set g c → Holds set g (choose b a c)
    unfolding choose
    choose-Holds true ha hc = ha
    choose-Holds false ha hc = hc

    pub on_some-Holds {ℓ} :
        {A : Type ℓ} (o : Option A) {k : A → Act H S}
        → ((x : A) → Holds set g (k x))
        → Holds set g (on_some o k)
    unfolding on_some
    on_some-Holds none h = skip-Holds
    on_some-Holds (some a) h = h a

    pub with_scope-Holds :
        (id : String) {k : Scope S → Act H S}
        → ((s : Scope S) → Holds set g (k s))
        → Holds set g (with_scope id k)
    unfolding with_scope scope_of
    with_scope-Holds id h = asking-Holds (scope_of id) (λ ms. on_some-Holds ms h)

    pub with_occurrence-Holds :
        (id : String) {k : Occurrence → Act H S}
        → ((o : Occurrence) → Holds set g (k o))
        → Holds set g (with_occurrence id k)
    unfolding with_occurrence occurrence_of
    with_occurrence-Holds id h = asking-Holds (occurrence_of id) (λ mo. on_some-Holds mo h)

  pub Holds-Safe : {m : Mode} {a : Act H S} → Holds set (plain m) a → Safe set m a
  Holds-Safe h = record { moves = λ r. h.moves r tt }

  module _ {m : Mode} where
    pub skip-Safe : Safe set m skip
    unfolding skip after
    skip-Safe = record { moves = λ r. here }

    pub then-Safe : {a b : Act H S} → Safe set m a → Safe set m b → Safe set m (a ▷ b)
    unfolding ◌▷◌ after
    then-Safe {a} ha hb = record { moves = λ r. Evolves-trans (ha.moves r) (hb.moves (after a r)) }

    pub asking-Safe {ℓ} :
        {A : Type ℓ} (f : Run H S → A) {k : A → Act H S}
        → ((x : A) → Safe set m (k x))
        → Safe set m (asking f k)
    unfolding asking after
    asking-Safe f {k} h = record { moves = λ r. (h (f r)).moves r }

    pub when-Safe : (b : Bool) {a : Act H S} → Safe set m a → Safe set m (when b a)
    unfolding when
    when-Safe true h = h
    when-Safe false h = skip-Safe

    pub choose-Safe :
        (b : Bool) {a c : Act H S} → Safe set m a → Safe set m c → Safe set m (choose b a c)
    unfolding choose
    choose-Safe true ha hc = ha
    choose-Safe false ha hc = hc

    pub on_some-Safe {ℓ} :
        {A : Type ℓ} (o : Option A) {k : A → Act H S}
        → ((x : A) → Safe set m (k x))
        → Safe set m (on_some o k)
    unfolding on_some
    on_some-Safe none h = skip-Safe
    on_some-Safe (some a) h = h a

    pub with_scope-Safe :
        (id : String) {k : Scope S → Act H S}
        → ((s : Scope S) → Safe set m (k s))
        → Safe set m (with_scope id k)
    unfolding with_scope scope_of
    with_scope-Safe id h = asking-Safe (scope_of id) (λ ms. on_some-Safe ms h)

    pub with_occurrence-Safe :
        (id : String) {k : Occurrence → Act H S}
        → ((o : Occurrence) → Safe set m (k o))
        → Safe set m (with_occurrence id k)
    unfolding with_occurrence occurrence_of
    with_occurrence-Safe id h = asking-Safe (occurrence_of id) (λ mo. on_some-Safe mo h)

    pub each-Safe {ℓ} :
        {A : Type ℓ} (xs : List A) {k : A → Act H S}
        → ((x : A) → Safe set m (k x))
        → Safe set m (each k xs)
    unfolding each
    each-Safe [] h = skip-Safe
    each-Safe (x ∷ xs) h = then-Safe (h x) (each-Safe xs h)

    pub log-Safe : (e : TraceEvent) → Safe set m (log e)
    unfolding log after
    log-Safe e = record { moves = λ r. one (logs e refl) }

    pub note-Safe : (kind occ : String) → Safe set m (note kind occ)
    unfolding note
    note-Safe kind occ = asking-Safe (λ r. r.now) (λ now. log-Safe (trace_event now kind occ))

    pub note_diag-Safe :
        (kind occ : String) (d : Option Diagnostic) → Safe set m (note_diag kind occ d)
    unfolding note_diag
    note_diag-Safe kind occ d = search (asking-Safe, log-Safe)

    -- A call that exposes no occurrence, and any call.
    pub tell-Safe : (x : Call) → is_boundary x ≡ true → Safe set m (tell set.car_cfg x)
    unfolding tell after
    tell-Safe x b = record { moves = λ r. one (calls x (inl b) refl) }

    pub expose-Safe : (x : Call) → is_outer m ≡ true → Safe set m (tell set.car_cfg x)
    unfolding tell after
    expose-Safe x o = record { moves = λ r. one (calls x (inr o) refl) }

    pub exhaust-Safe : Safe set m exhaust
    unfolding exhaust after
    exhaust-Safe = record { moves = λ r. one (exhausts refl) }

module _ {H S : Type 0} {set : Settings H S} {m : Mode} {r : Run H S} where
  pub From-each : {a : Act H S} → Safe set m a → From set m r a
  From-each h = record { moves = h.moves r }

  pub then-From : {a b : Act H S} → From set m r a → Safe set m b → From set m r (a ▷ b)
  unfolding ◌▷◌ after
  then-From {a} ha hb = record { moves = Evolves-trans ha.moves (hb.moves (after a r)) }

  pub asking-From {ℓ} :
      {A : Type ℓ} (f : Run H S → A) (k : A → Act H S)
      → From set m r (k (f r))
      → From set m r (asking f k)
  unfolding asking after
  asking-From f k h = record { moves = h.moves }

  pub when-From : {b : Bool} {a : Act H S} → (b ≡ true → From set m r a) → From set m r (when b a)
  unfolding when after skip
  when-From {b = true} h = h refl
  when-From {b = false} h = record { moves = here }

  pub choose-From :
      {b : Bool} {a c : Act H S}
      → (b ≡ true → From set m r a)
      → (b ≡ false → From set m r c)
      → From set m r (choose b a c)
  unfolding choose
  choose-From {b = true} ha hc = ha refl
  choose-From {b = false} ha hc = hc refl

  pub with_scope-From :
      (id : String) {k : Scope S → Act H S}
      → ((s : Scope S) → get id r.scopes ≡ some s → From set m r (k s))
      → From set m r (with_scope id k)
  unfolding with_scope scope_of asking on_some after skip
  with_scope-From id h = elim (Option-cases (get id r.scopes)) [
    | inl e ↦ record { moves = rw e here }
    | inr (s, e) ↦ record { moves = rw e (h s e).moves }
  ]

  pub with_occurrence-From :
      (id : String) {k : Occurrence → Act H S}
      → ((o : Occurrence) → From set m r (k o))
      → From set m r (with_occurrence id k)
  unfolding with_occurrence occurrence_of asking on_some after skip
  with_occurrence-From id h = elim (Option-cases (get id r.car.occs)) [
    | inl e ↦ record { moves = rw e here }
    | inr (o, e) ↦ record { moves = rw e (h o).moves }
  ]

  -- A scope that is not terminal may get any outcome.
  pub put_scope-From :
      (id : String) (s t : Scope S)
      → is_loud m ≡ true
      → get id r.scopes ≡ some s
      → is_terminal s.state ≡ false
      → From set m r (put_scope id t)
  unfolding put_scope after
  put_scope-From id s t loud e live = record {
    moves = one (puts id t (changes s loud e live) refl);
  }

module _ {H S : Type 0} {set : Settings H S} {m : Mode} where
  pub every_run : {a : Act H S} → ((r : Run H S) → From set m r a) → Safe set m a
  every_run h = record { moves = λ r. (h r).moves }

  -- An assignment to fields of a scope that are no part of its outcome.
  pub edit-Safe :
      (id : String) (f : Scope S → Scope S)
      → ((s : Scope S) → ((f s).state ≡ s.state) × ((f s).out ≡ s.out) × ((f s).diag ≡ s.diag))
      → Safe set m (edit id f)
  unfolding edit put_scope after
  edit-Safe id f h = every_run (λ r. with_scope-From id (λ s e. record {
    moves = one (puts id (f s) (keeps_outcome s e (h s).0 (h s).1 (h s).2) refl);
  }))

  pub push-Safe : (at : ℤ) (id : String) (kind : ItemKind) → Safe set m (push at id kind)
  unfolding push after
  push-Safe at id kind = record {
    moves = λ r.
        one (pushes (record { at = at; seq = suc r.tl_seq; scope = id; kind = kind }) refl refl);
  }

pub ruleset safe_acts = (
  then-Safe, asking-Safe, when-Safe, choose-Safe, on_some-Safe, with_scope-Safe,
  with_occurrence-Safe, each-Safe, log-Safe, note-Safe, note_diag-Safe, tell-Safe, exhaust-Safe,
  skip-Safe, edit-Safe, push-Safe, refl,
)

pub ruleset held_acts = (
  then-Holds, asking-Holds, when-Holds, choose-Holds, on_some-Holds, with_scope-Holds,
  with_occurrence-Holds, skip-Holds, safe_acts,
)

pub ruleset acts_from = (
  asking-From, when-From, choose-From, with_scope-From, with_occurrence-From, then-From, From-each,
  every_run,
)
