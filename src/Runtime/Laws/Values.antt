-- ===== src/Runtime/Laws/Values.antt =====
-- The Outcome & Value Store.
use subsea_cable_runtime.Base.{
  ◌≡◌, refl, sym, ◌∙◌, ap, true, ◌⊎◌, inl, inr, some, String, List, get, put, get-put, string_eq,
  ◌==◌, Bool-cases, if◌then◌else◌,
}
use subsea_cable_runtime.Value.{Output}
use subsea_cable_runtime.Runtime.Policy.{satisfied, is_terminal}
use subsea_cable_runtime.Runtime.State.{Run, Scope, Settings}
use subsea_cable_runtime.Runtime.Operations.{Operation, operate_all}
use subsea_cable_runtime.Runtime.Moves.{
  Mode, Move, logs, calls, puts, resolves, pushes, pops, marks, lands, launches, finishes, counts,
  hosts, gates, exhausts, Evolves, here, next,
}
use subsea_cable_runtime.Runtime.Moves.Acts.{one}
use subsea_cable_runtime.Runtime.Moves.Outcomes.{HasOutcome, Evolves-HasOutcome}
use subsea_cable_runtime.Runtime.Moves.Starting.{IsGated}
use subsea_cable_runtime.Runtime.Laws.Refinement.{operations-Evolves}

-- A value that the store holds is the output of a satisfied scope.
pub record IsValueOf {H S : Type 0} (r : Run H S) (id : String) (v : Output) : Type 0 where
  pub scope : Scope S
  pub there : get id r.scopes ≡ some scope
  pub satisfies : scope.state ≡ satisfied
  pub exports : scope.out ≡ v

pub record IsBacked {H S : Type 0} (r : Run H S) : Type 0 where
  pub backed : (id : String) (v : Output) → get id r.values ≡ some v → IsValueOf r id v

satisfied_state : {S : Type 0} (s : Scope S) → s.state ≡ satisfied → is_terminal s.state ≡ true
unfolding is_terminal
satisfied_state s e = rw e refl

resolved_one :
    {H S : Type 0} {t : Run H S} (j id : String) (s : Scope S) (v : Output)
    → IsBacked t
    → get j t.scopes ≡ some s
    → s.state ≡ satisfied
    → get id (put j s.out t.values) ≡ some v
    → IsValueOf t id v
resolved_one {H} {S} {t} j id s v b e st g = elim (Bool-cases (j == id)) [
  | inl same ↦
      let new : get id (put j s.out t.values) ≡ some s.out =
        get-put j id s.out t.values ∙ rw same refl in
      record {
        scope = s;
        there = cc ((string_eq.beq_iff j id).0 same, e);
        satisfies = st;
        exports = cc (g, new);
      }
  | inr other ↦
      let old : get id (put j s.out t.values) ≡ get id t.values =
        get-put j id s.out t.values ∙ rw other refl in
      b.backed id v (sym old ∙ g)
]

module _ {H S : Type 0} {set : Settings H S} {m : Mode} where
  -- A move leaves the values alone, or resolves the output of a satisfied scope.
  values_after :
      {t u : Run H S}
      → Move set m t u
      → (u.values ≡ t.values)
        ⊎ ((j : String) × (s : Scope S) × (get j t.scopes ≡ some s)
            × (s.state ≡ satisfied)
            × (u.values ≡ put j s.out t.values))
  values_after (logs e x) = inl (ap (λ v. v.values) x)
  values_after (calls c q x) = inl (ap (λ v. v.values) x)
  values_after (puts j s f x) = inl (ap (λ v. v.values) x)
  values_after (resolves j s a b x) = inr (j, s, a, b, ap (λ v. v.values) x)
  values_after (pushes it a x) = inl (ap (λ v. v.values) x)
  values_after (pops it rest o a x) = inl (ap (λ v. v.values) x)
  values_after (marks id at a x) = inl (ap (λ v. v.values) x)
  values_after (lands id x) = inl (ap (λ v. v.values) x)
  values_after (launches at o b q x) = inl (ap (λ v. v.values) x)
  values_after (finishes a b v w x) = inl (ap (λ v. v.values) x)
  values_after (counts w n x) = inl (ap (λ v. v.values) x)
  values_after (hosts h x) = inl (ap (λ v. v.values) x)
  values_after (gates h g a x) = inl (ap (λ v. v.values) x)
  values_after (exhausts x) = inl (ap (λ v. v.values) x)

  -- A satisfied scope stays the scope of its value.
  stays-IsValueOf :
      {t u : Run H S} {id : String} {v : Output}
      → Move set m t u
      → IsValueOf t id v
      → IsValueOf u id v
  stays-IsValueOf {t} {u} {id} mv h =
      let kept : HasOutcome id h.scope u.scopes =
        Evolves-HasOutcome (inr (satisfied_state h.scope h.satisfies)) (one mv) (record {
          found = h.scope;
          there = h.there;
          same_state = refl;
          same_out = refl;
          same_diag = refl;
        }) in
      record {
        scope = kept.found;
        there = kept.there;
        satisfies = kept.same_state ∙ h.satisfies;
        exports = kept.same_out ∙ h.exports;
      }

  Move-IsBacked : {t u : Run H S} → Move set m t u → IsBacked t → IsBacked u
  Move-IsBacked {t} {u} mv b = record {
    backed = λ id v g. stays-IsValueOf mv (elim (values_after mv) [
      | inl e ↦ b.backed id v (cc (e, g))
      | inr (j, s, a, st, e) ↦ resolved_one j id s v b a st (cc (e, g))
    ]);
  }

  Move-value :
      {t u : Run H S} (id : String) (v : Output)
      → IsBacked t
      → Move set m t u
      → get id t.values ≡ some v
      → get id u.values ≡ some v
  Move-value {t} {u} id v b mv g = elim (values_after mv) [
    | inl e ↦ cc (e, g)
    | inr (j, s, a, st, e) ↦ ap (get id) e ∙ get-put j id s.out t.values ∙ same_value j s a
  ]
    where
      same_value :
          (j : String) (s : Scope S)
          → get j t.scopes ≡ some s
          → (if j == id then some s.out else get id t.values) ≡ some v
      same_value j s a = elim (Bool-cases (j == id)) [
        | inl same ↦
            let h : IsValueOf t id v = b.backed id v g in
            rw same (cc ((string_eq.beq_iff j id).0 same, a, h.there, h.exports))
        | inr other ↦ rw other g
      ]

  Evolves-IsBacked : {t u : Run H S} → Evolves set m t u → IsBacked t → IsBacked u
  Evolves-IsBacked here b = b
  Evolves-IsBacked (next a mv) b = Move-IsBacked mv (Evolves-IsBacked a b)

  Evolves-value :
      {t u : Run H S} (id : String) (v : Output)
      → IsBacked t
      → Evolves set m t u
      → get id t.values ≡ some v
      → get id u.values ≡ some v
  Evolves-value id v b here g = g
  Evolves-value id v b (next a mv) g =
      Move-value id v (Evolves-IsBacked a b) mv (Evolves-value id v b a g)

module _ {H S : Type 0} (set : Settings H S) (gated : IsGated set.port) (xs : List Operation)
    (r : Run H S) (b : IsBacked r) where
  -- Whatever calls (Step, Advance, Cancel, Demand, CancelScope, SetPrefetch) are made on a run
  -- whose Host reaches the call-site counter only through its gateway, every value in the value
  -- store is the output of a satisfied scope, if it was so at first.
  pub operations-IsBacked : IsBacked (operate_all set xs r)
  operations-IsBacked = Evolves-IsBacked (operations-Evolves set gated xs r) b

  -- Whatever calls (Step, Advance, Cancel, Demand, CancelScope, SetPrefetch) are made on a run
  -- whose Host reaches the call-site counter only through its gateway, a value that the value
  -- store holds stays as it is, if every stored value was the output of a satisfied scope at
  -- first.
  pub written_once :
      (id : String) (v : Output)
      → get id r.values ≡ some v
      → get id (operate_all set xs r).values ≡ some v
  written_once id v g = Evolves-value id v b (operations-Evolves set gated xs r) g
