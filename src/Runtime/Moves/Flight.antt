-- ===== src/Runtime/Moves/Flight.antt =====
-- What moves do to the attempts in flight and to the clock.
use subsea_cable_runtime.Base.{
  suc, ◌≤◌, ◌≡◌, refl, ap, true, false, String, [], ◌∷◌, ◌==◌, string_eq, get, put, length,
  length-del_le, Map, Bool-cases, inl, inr, arith, is_some,
}
use subsea_cable_runtime.Runtime.State.{Run, Settings}
use subsea_cable_runtime.Runtime.Moves.{
  Mode, is_outer, Move, logs, calls, puts, resolves, pushes, pops, marks, lands, launches, finishes,
  counts, hosts, gates, exhausts, Evolves, here, next,
}

module _ {V : Type 0} where
  length-put_le : (k : String) (v : V) (m : Map String V) → length (put k v m) ≤ suc (length m)
  unfolding put
  length-put_le k v [] = omega arith
  length-put_le k v ((j, w) ∷ m) = ground (arith, length-put_le k v m)

  -- A key that is there takes no place.
  length-put_present :
      (k : String) (v : V) (m : Map String V)
      → is_some (get k m) ≡ true
      → length (put k v m) ≡ length m
  unfolding put get
  length-put_present k v [] h = cc
  length-put_present k v ((j, w) ∷ m) h = elim (Bool-cases (j == k)) [
    | inl e ↦ rw e refl
    | inr e ↦ rw e (ap suc (length-put_present k v m (ground (arith, h, e))))
  ]

module _ {H S : Type 0} {set : Settings H S} {m : Mode} where
  -- A move that is not outer starts nothing, and no time passes.
  module _ (small : is_outer m ≡ false) where
    Move-flight_le : {t u : Run H S} → Move set m t u → length u.inflight ≤ length t.inflight
    Move-flight_le (logs e x) = rw x (omega arith)
    Move-flight_le (calls e q x) = rw x (omega arith)
    Move-flight_le (puts j s f x) = rw x (omega arith)
    Move-flight_le (resolves id s a b x) = rw x (omega arith)
    Move-flight_le (pushes it a x) = rw x (omega arith)
    Move-flight_le (pops it rest o a x) = cc (o, small)
    Move-flight_le {t} (marks id at a x) =
        let same = length-put_present id at t.inflight a in rw x (omega (arith, same))
    Move-flight_le {t} (lands id x) =
        let fewer = length-del_le id t.inflight in rw x (omega (arith, fewer))
    Move-flight_le (launches at o b q x) = cc (o, small)
    Move-flight_le (finishes a b v w x) = rw x (omega arith)
    Move-flight_le (counts w n x) = rw x (omega arith)
    Move-flight_le (hosts h x) = rw x (omega arith)
    Move-flight_le (gates h g a x) = rw x (omega arith)
    Move-flight_le (exhausts x) = rw x (omega arith)

    pub Evolves-flight_le :
        {t u : Run H S} → Evolves set m t u → length u.inflight ≤ length t.inflight
    Evolves-flight_le here = omega arith
    Evolves-flight_le (next a mv) =
        let before = Evolves-flight_le a in
        let last = Move-flight_le mv in omega (arith, before, last)

    Move-now : {t u : Run H S} → Move set m t u → u.now ≡ t.now
    Move-now (logs e x) = rw x refl
    Move-now (calls e q x) = rw x refl
    Move-now (puts j s f x) = rw x refl
    Move-now (resolves id s a b x) = rw x refl
    Move-now (pushes it a x) = rw x refl
    Move-now (pops it rest o a x) = cc (o, small)
    Move-now (marks id at a x) = rw x refl
    Move-now (lands id x) = rw x refl
    Move-now (launches at o b q x) = rw x refl
    Move-now (finishes a b v w x) = rw x refl
    Move-now (counts w n x) = rw x refl
    Move-now (hosts h x) = rw x refl
    Move-now (gates h g a x) = rw x refl
    Move-now (exhausts x) = rw x refl

    pub Evolves-same_now : {t u : Run H S} → Evolves set m t u → u.now ≡ t.now
    Evolves-same_now here = refl
    Evolves-same_now (next a mv) = cc (Move-now mv, Evolves-same_now a)

  Move-flight_bound :
      {t u : Run H S}
      → Move set m t u
      → length t.inflight ≤ set.concurrency
      → length u.inflight ≤ set.concurrency
  Move-flight_bound (logs e x) h = rw x h
  Move-flight_bound (calls e q x) h = rw x h
  Move-flight_bound (puts j s f x) h = rw x h
  Move-flight_bound (resolves id s a b x) h = rw x h
  Move-flight_bound (pushes it a x) h = rw x h
  Move-flight_bound (pops it rest o a x) h = rw x h
  Move-flight_bound {t} (marks id at a x) h =
      let same = length-put_present id at t.inflight a in rw x (omega (arith, same, h))
  Move-flight_bound {t} (lands id x) h =
      let fewer = length-del_le id t.inflight in rw x (omega (arith, fewer, h))
  Move-flight_bound {t} (launches at o b q x) h =
      let more = length-put_le at.id at t.inflight in rw x (omega (arith, more, b))
  Move-flight_bound (finishes a b v w x) h = rw x h
  Move-flight_bound (counts w n x) h = rw x h
  Move-flight_bound (hosts k x) h = rw x h
  Move-flight_bound (gates k g a x) h = rw x h
  Move-flight_bound (exhausts x) h = rw x h

  pub Evolves-flight_bound :
      {t u : Run H S}
      → Evolves set m t u
      → length t.inflight ≤ set.concurrency
      → length u.inflight ≤ set.concurrency
  Evolves-flight_bound here h = h
  Evolves-flight_bound (next a mv) h = Move-flight_bound mv (Evolves-flight_bound a h)
