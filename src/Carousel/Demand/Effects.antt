-- ===== src/Carousel/Demand/Effects.antt =====
-- Demand and withdrawal: when each acts, and what it leaves alone.
use subsea_cable_runtime.Base.{
  ◌≡◌, ◌≢◌, ◌⊎◌, Bool, inl, inr, refl, true, false, Option, none, some, String, string_eq, get, put,
  del, ◌&&◌, get-put, get-del, is_some, arith, Bool-cases, beq_self,
}
use subsea_cable_runtime.Carousel.{
  Carousel, Occurrence, State, undeduced, committed, failed, withdrawn, deducible, emit, event,
  demand_observed, demand_withdrawn, is_demanded, is_undeduced,
}
use subsea_cable_runtime.Carousel.Demand.{
  DemandResult, demand_accepted, demand_already_pending, demand_already_deduced,
  demand_failed_earlier, demand_withdrawn_earlier, demand_not_deducible, demand_unknown, demand,
  demand_found, demand_state, accept, withdraw, withdraw_found,
}

-- What an accepted demand needs and does: the occurrence is deducible, undeduced and was not
-- demanded; it is demanded now, and one event says so.
pub record Accepts (id : String) (c c' : Carousel) : Type 0 where
  pub o : Occurrence
  pub known : get id c.occs ≡ some o
  pub may_deduce : deducible o ≡ true
  pub still_open : o.state ≡ undeduced
  pub was_free : is_demanded c id ≡ false
  pub after : c' ≡ emit (event demand_observed id) (record c { demanded = put id true c.demanded })

abbrev pub may_withdraw : Option Occurrence → Bool
may_withdraw none = false
may_withdraw (some o) = deducible o && is_undeduced o.state

-- What a withdrawal needs and does: the occurrence is deducible and undeduced; it is withdrawn and
-- not demanded now, and one event says so.
pub record Withdraws (id : String) (c c' : Carousel) : Type 0 where
  pub o : Occurrence
  pub known : get id c.occs ≡ some o
  pub may_deduce : deducible o ≡ true
  pub still_open : o.state ≡ undeduced
  pub after :
      c'
      ≡ emit (event demand_withdrawn id) (record c {
        occs = put id (record o { state = withdrawn }) c.occs;
        demanded = del id c.demanded;
      })

module _ (id : String) (c : Carousel) where
  abbrev Effect : DemandResult × Carousel → Type 0
  Effect r = ((r.0 ≢ demand_accepted) × (r.1 ≡ c)) ⊎ ((r.0 ≡ demand_accepted) × Accepts id c r.1)

  stays : (d : DemandResult) → d ≢ demand_accepted → Effect (d, c)
  stays d n = inl (n, refl)

  accept-Effect :
      (o : Occurrence)
      → get id c.occs ≡ some o
      → deducible o ≡ true
      → o.state ≡ undeduced
      → Effect (accept id c)
  unfolding accept is_demanded
  accept-Effect o known may still_open = elim (Bool-cases (is_some (get id c.demanded))) [
    | inl pending ↦ rw pending (stays demand_already_pending (λ x. cc))
    | inr free ↦ rw free (
        inr (
          refl,
          record {
            o = o;
            known = known;
            may_deduce = may;
            still_open = still_open;
            was_free = free;
            after = refl;
          },
        ))
  ]

  state-Effect :
      (o : Occurrence) (st : State)
      → get id c.occs ≡ some o
      → deducible o ≡ true
      → o.state ≡ st
      → Effect (demand_state st id c)
  unfolding demand_state
  state-Effect o committed k m s = stays demand_already_deduced (λ x. cc)
  state-Effect o failed k m s = stays demand_failed_earlier (λ x. cc)
  state-Effect o withdrawn k m s = stays demand_withdrawn_earlier (λ x. cc)
  state-Effect o undeduced k m s = accept-Effect o k m s

  found-Effect : (mo : Option Occurrence) → get id c.occs ≡ mo → Effect (demand_found mo id c)
  unfolding demand_found
  found-Effect none e = stays demand_unknown (λ x. cc)
  found-Effect (some o) e = elim (Bool-cases (deducible o)) [
    | inl may ↦ rw may (state-Effect o o.state e may refl)
    | inr fixed ↦ rw fixed (stays demand_not_deducible (λ x. cc))
  ]

  -- Demand either answers something else than `accepted` and changes nothing at all, or it
  -- accepts: then the occurrence is deducible, undeduced and was not demanded, and all that
  -- changes is that it is demanded and that one event says so.
  pub demand_effect :
      ((((demand id c).0) ≢ demand_accepted) × ((demand id c).1 ≡ c))
      ⊎ (((demand id c).0 ≡ demand_accepted) × Accepts id c (demand id c).1)
  unfolding demand
  demand_effect = found-Effect (get id c.occs) refl

  -- Withdrawing a deducible, undeduced occurrence takes its demand back, and a demand of it right
  -- after is answered `withdrawn` and changes nothing.
  pub withdraw_final :
      (o : Occurrence)
      → get id c.occs ≡ some o
      → deducible o ≡ true
      → o.state ≡ undeduced
      → (is_demanded (withdraw id c) id ≡ false)
        × (demand id (withdraw id c) ≡ (demand_withdrawn_earlier, withdraw id c))
  unfolding withdraw demand is_demanded emit deducible
  withdraw_final o known may open' = (
    ground (arith, known, may, open', get-del id id c.demanded, beq_self id),
    ground (
      arith,
      known,
      may,
      open',
      beq_self id,
      get-put id id (record o { state = withdrawn }) c.occs,
    ),
  )

  abbrev Withdrawal : Carousel → Type 0
  Withdrawal c' = ((may_withdraw (get id c.occs) ≡ false) × (c' ≡ c)) ⊎ Withdraws id c c'

  is_undeduced_state : (st : State) → is_undeduced st ≡ true → st ≡ undeduced
  is_undeduced_state undeduced h = refl
  is_undeduced_state committed h = cc
  is_undeduced_state failed h = cc
  is_undeduced_state withdrawn h = cc

  withdraw_found-Effect :
      (mo : Option Occurrence) → get id c.occs ≡ mo → Withdrawal (withdraw_found mo id c)
  unfolding withdraw_found
  withdraw_found-Effect none e = inl (rw e refl, refl)
  withdraw_found-Effect (some o) e = elim (Bool-cases (deducible o && is_undeduced o.state)) [
    | inl may ↦ rw may (
        inr (record {
          o = o;
          known = e;
          may_deduce = ground (arith, may);
          still_open = is_undeduced_state o.state (ground (arith, may));
          after = refl;
        }))
    | inr not_now ↦ rw not_now (inl (rw e not_now, refl))
  ]

  -- Withdraw either changes nothing at all, where the occurrence is unknown, not deducible or not
  -- undeduced any more; or the occurrence is deducible and undeduced, and all that changes is
  -- that it is withdrawn and not demanded, and that one event says so.
  pub withdraw_effect :
      ((may_withdraw (get id c.occs) ≡ false) × (withdraw id c ≡ c))
      ⊎ Withdraws id c (withdraw id c)
  unfolding withdraw
  withdraw_effect = withdraw_found-Effect (get id c.occs) refl
