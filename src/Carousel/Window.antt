-- ===== src/Carousel/Window.antt =====
-- The Touchdown window: `window` and `touchdowns` tell the same story after every operation.
pub mod Acks
pub mod Deductions
pub mod Authorization
use subsea_cable_runtime.Base.{
  ℕ, ◌≡◌, refl, ◌∙◌, ap, sym, Bool, true, false, Option, none, some, String, List, [], ◌∷◌, ◌==◌,
  string_eq, if◌then◌else◌, get, put, del, get-put, get-del, is_some, arith, Distinct, put-Distinct,
  del-Distinct, Bool-cases, inl, inr, Eq,
}
use subsea_cable_runtime.Carousel.{
  Carousel, Config, Occurrence, TouchdownCell, TouchdownState, buffered, consumed, discarded, emit,
  register, is_leaf, new_carousel, enroll, demand_eager, publish, publish_into,
}
use subsea_cable_runtime.Codebase.{Codebase}

state_buffered : TouchdownState → Bool
state_buffered buffered = true
state_buffered consumed = false
state_buffered discarded = false

-- A Touchdown that was published and not yet acknowledged.
unfoldable pub is_buffered : Option TouchdownCell → Bool
unfolding state_buffered
is_buffered none = false
is_buffered (some td) = state_buffered td.state

-- The window holds exactly the buffered Touchdowns, each once.
pub record IsConsistent (c : Carousel) : Type 0 where
  pub agrees : (id : String) → is_some (get id c.window) ≡ is_buffered (get id c.touchdowns)
  pub distinct : Distinct c.window

pub new-IsConsistent : (base : Codebase) (n : ℕ) → IsConsistent (new_carousel base n)
unfolding new_carousel get is_buffered
new-IsConsistent base n = record { agrees = λ id. refl; distinct = tt }

-- Operations that leave the two maps alone.
pub same-IsConsistent :
    (c c' : Carousel)
    → c'.window ≡ c.window
    → c'.touchdowns ≡ c.touchdowns
    → IsConsistent c
    → IsConsistent c'
same-IsConsistent c c' w t h = record {
  agrees = λ id. rw (w, t) (h.agrees id);
  distinct = rw w h.distinct;
}

publish_into-IsConsistent :
    (cfg : Config) (o : Occurrence) (c : Carousel)
    → IsConsistent c
    → IsConsistent (publish_into cfg o c)
unfolding publish_into is_buffered
publish_into-IsConsistent cfg o c h = record {
  agrees = λ id. simp get-put (ground (arith, h.agrees id));
  distinct = put-Distinct o.id true c.window h.distinct;
}

publish-IsConsistent :
    (cfg : Config) (o : Occurrence) (c : Carousel) → IsConsistent c → IsConsistent (publish cfg o c)
unfolding publish
publish-IsConsistent cfg o c h = elim (Bool-cases (is_leaf o)) [
  | inl leaf ↦
      rw leaf
        (same-IsConsistent (publish_into cfg o c) _ refl refl (publish_into-IsConsistent cfg o c h))
  | inr other ↦ rw other h
]

demand_eager_window :
    (cfg : Config) (o : Occurrence) (c : Carousel)
    → ((demand_eager cfg o c).window ≡ c.window)
      × ((demand_eager cfg o c).touchdowns ≡ c.touchdowns)
unfolding demand_eager
demand_eager_window cfg o c = ground arith

-- Exposing an occurrence keeps the window consistent.
pub register-IsConsistent :
    (cfg : Config) (o : Occurrence) (c : Carousel)
    → IsConsistent c
    → IsConsistent (register cfg o c)
unfolding register
register-IsConsistent cfg o c h =
    let e = demand_eager_window cfg o (enroll cfg o c) in
    publish-IsConsistent cfg o _ (
      same-IsConsistent (enroll cfg o c) _ e.0 e.1
        (unfold enroll emit in same-IsConsistent c _ refl refl h))
