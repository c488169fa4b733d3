-- ===== src/Runtime/Laws/Budget.antt =====
-- The step budget: a run that has used up its steps has a result.
use subsea_cable_runtime.Base.{
  ℕ, suc, List, [], ◌∷◌, is_some, ◌≤◌, ◌≡◌, refl, ◌⊎◌, inl, inr, Option-cases, String, ◌∙◌, Bool,
  true, false, not, none, arith, ltb, Bool-cases, ap,
}
use subsea_cable_runtime.Runtime.State.{Run, Settings}
use subsea_cable_runtime.Runtime.Act.{
  Act, after, ◌▷◌, asking, when, choose, finish, skip, set_result, note_diag, log,
}
use subsea_cable_runtime.Runtime.Reactor.{
  is_done, finish_failed, count_step, step_within, step_on, step_act,
}
use subsea_cable_runtime.Runtime.Moves.{
  outer, Move, logs, calls, puts, resolves, pushes, pops, marks, lands, launches, finishes, counts,
  hosts, gates, exhausts, Evolves, here, next,
}
use subsea_cable_runtime.Runtime.Moves.Starting.{IsGated}
use subsea_cable_runtime.Runtime.Moves.Loops.{
  step_within-Safe, stabilize-Safe, cancel-Safe, request-Safe, cancel_scope-Safe, set_prefetch-Safe,
  finish_failed-Safe,
}
use subsea_cable_runtime.Runtime.Operations.{
  Operation, steps, advances, cancels, requests, cancels_scope, sets_prefetch, operate, operate_all,
}
use subsea_cable_runtime.Runtime.Laws.Outcomes.{Evolves-result}

module _ {H S : Type 0} {set : Settings H S} where
  Move-steps : {t u : Run H S} → Move set outer t u → u.steps ≡ t.steps
  Move-steps (logs e x) = rw x refl
  Move-steps (calls c q x) = rw x refl
  Move-steps (puts j s f x) = rw x refl
  Move-steps (resolves j s a b x) = rw x refl
  Move-steps (pushes it a x) = rw x refl
  Move-steps (pops it rest o a x) = rw x refl
  Move-steps (marks id at a x) = rw x refl
  Move-steps (lands id x) = rw x refl
  Move-steps (launches at o b q x) = rw x refl
  Move-steps (finishes a b v w x) = rw x refl
  Move-steps (counts w n x) = cc
  Move-steps (hosts h x) = rw x refl
  Move-steps (gates h g a x) = rw x refl
  Move-steps (exhausts x) = rw x refl

  Evolves-steps : {t u : Run H S} → Evolves set outer t u → u.steps ≡ t.steps
  Evolves-steps here = refl
  Evolves-steps (next a mv) = cc (Move-steps mv, Evolves-steps a)

module _ {H S : Type 0} where
  then_choose :
      (c : Act H S) (f : Run H S → Bool) (a b : Act H S) (r : Run H S)
      → f (after c r) ≡ true
      → after (c ▷ asking f (λ over. choose over a b)) r ≡ after a (after c r)
  unfolding asking choose ◌▷◌ after
  then_choose c f a b r e = rw e refl

  then_choose_not :
      (c : Act H S) (f : Run H S → Bool) (a b : Act H S) (r : Run H S)
      → f (after c r) ≡ false
      → after (c ▷ asking f (λ over. choose over a b)) r ≡ after b (after c r)
  unfolding asking choose ◌▷◌ after
  then_choose_not c f a b r e = rw e refl

  pub unless_done :
      (a : Act H S) (r : Run H S)
      → r.result ≡ none
      → after (asking is_done (λ done. when (not done) a)) r ≡ after a r
  unfolding asking when is_done after
  unless_done a r e = rw e refl

  pub not_done : (r : Run H S) → is_done r ≡ false → r.result ≡ none
  unfolding is_done
  not_done r e = elim (Option-cases r.result) [ inl n ↦ n | inr (x, q) ↦ cc (q, e) ]

  pub when_done :
      (a : Act H S) (r : Run H S)
      → is_done r ≡ true
      → after (asking is_done (λ done. when (not done) a)) r ≡ r
  unfolding asking when after skip
  when_done a r e = rw e refl

-- The counted steps are within the budget, or one more, and then the run has a result.
abbrev pub IsWithin : {H S : Type 0} → ℕ → Run H S → Type 0
IsWithin n r = (r.steps ≤ n) ⊎ ((r.steps ≡ suc n) × (is_done r ≡ true))

module _ {H S : Type 0} (set : Settings H S) where
  -- A run that is out of its budget finishes.
  finish_failed-done :
      (kind : String) (r : Run H S)
      → r.result ≡ none
      → is_done (after (finish_failed kind) r) ≡ true
  unfolding finish_failed finish asking when set_result note_diag log ◌▷◌ after skip is_done
  finish_failed-done kind r e = rw e refl

  step_act-on : (r : Run H S) → r.result ≡ none → after (step_act set) r ≡ after (step_on set) r
  unfolding step_act
  step_act-on r e = unless_done (step_on set) r e

  step_on-over :
      (r : Run H S)
      → ltb set.max_steps (suc r.steps) ≡ true
      → after (step_on set) r ≡ after (finish_failed "StepBudgetExceeded") (after count_step r)
  unfolding step_on count_step after
  step_on-over r e =
      then_choose count_step (λ t. ltb set.max_steps t.steps) (finish_failed "StepBudgetExceeded")
        (step_within set) r e

  step_on-within :
      (r : Run H S)
      → ltb set.max_steps (suc r.steps) ≡ false
      → after (step_on set) r ≡ after (step_within set) (after count_step r)
  unfolding step_on count_step after
  step_on-within r e =
      then_choose_not count_step (λ t. ltb set.max_steps t.steps)
        (finish_failed "StepBudgetExceeded") (step_within set) r e

  counted :
      (r : Run H S)
      → ((after count_step r).steps ≡ suc r.steps) × ((after count_step r).result ≡ r.result)
  unfolding count_step after
  counted r = (refl, refl)

  outer-IsWithin :
      {r t : Run H S} → Evolves set outer r t → IsWithin set.max_steps r → IsWithin set.max_steps t
  unfolding is_done
  outer-IsWithin e (inl h) = let same = Evolves-steps e in inl (omega (arith, same, h))
  outer-IsWithin {r} e (inr (h, done)) = inr (
    Evolves-steps e ∙ h,
    elim (Option-cases r.result) [
      | inl n ↦ cc (n, done)
      | inr (x, q) ↦ ap is_some (Evolves-result x e q)
    ],
  )

  module _ (gated : IsGated set.port) where
    step_live-IsWithin :
        (r : Run H S)
        → r.result ≡ none
        → r.steps ≤ set.max_steps
        → IsWithin set.max_steps (after (step_act set) r)
    step_live-IsWithin r e h = elim (Bool-cases (ltb set.max_steps (suc r.steps))) [
      | inl over ↦
          let ends = step_act-on r e ∙ step_on-over r over in
          let same =
            Evolves-steps
              ((finish_failed-Safe set "StepBudgetExceeded").moves (after count_step r)) in
          let first = (counted r).0 in
          let last = ap (λ t. t.steps) ends in
          inr (
            ground (arith, over, h, same, first, last),
            ap is_done ends
                ∙ finish_failed-done "StepBudgetExceeded" (after count_step r) ((counted r).1 ∙ e),
          )
      | inr within ↦
          let same = Evolves-steps ((step_within-Safe set gated).moves (after count_step r)) in
          let last = ap (λ t. t.steps) (step_act-on r e ∙ step_on-within r within) in
          let first = (counted r).0 in inl (ground (arith, within, same, last, first))
    ]

    step_act-IsWithin :
        (r : Run H S) → IsWithin set.max_steps r → IsWithin set.max_steps (after (step_act set) r)
    unfolding step_act
    step_act-IsWithin r h = elim (Bool-cases (is_done r)) [
      | inl done ↦ rw (when_done (step_on set) r done) h
      | inr live ↦ elim h [
        | inl few ↦ step_live-IsWithin r (not_done r live) few
        | inr (q, done) ↦ cc (live, done)
      ]
    ]

    operate-IsWithin :
        (x : Operation) (r : Run H S)
        → IsWithin set.max_steps r
        → IsWithin set.max_steps (after (operate set x) r)
    unfolding operate
    operate-IsWithin steps r h = step_act-IsWithin r h
    operate-IsWithin advances r h = outer-IsWithin ((stabilize-Safe set gated).moves r) h
    operate-IsWithin cancels r h = outer-IsWithin ((cancel-Safe set).moves r) h
    operate-IsWithin (requests id) r h = outer-IsWithin ((request-Safe set id).moves r) h
    operate-IsWithin (cancels_scope id) r h = outer-IsWithin ((cancel_scope-Safe set id).moves r) h
    operate-IsWithin (sets_prefetch n) r h = outer-IsWithin ((set_prefetch-Safe set n).moves r) h

    -- Whatever calls (Step, Advance, Cancel, Demand, CancelScope, SetPrefetch) are made on a run
    -- whose Host reaches the call-site counter only through its gateway, the counted steps stay
    -- at most MaxSteps, or are one more and the run has a result, if it was so at first.
    pub step_budget :
        (xs : List Operation) (r : Run H S)
        → IsWithin set.max_steps r
        → IsWithin set.max_steps (operate_all set xs r)
    unfolding operate_all
    step_budget [] r h = h
    step_budget (x ∷ xs) r h = step_budget xs (after (operate set x) r) (operate-IsWithin x r h)
