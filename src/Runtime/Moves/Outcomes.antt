-- ===== src/Runtime/Moves/Outcomes.antt =====
-- What moves keep of the scopes: an outcome, once a scope has it.
use subsea_cable_runtime.Base.{
  true, false, ◌≡◌, ◌⊎◌, inl, inr, refl, ◌∙◌, ap, some, String, ◌==◌, string_eq, get, put, get-put,
  Bool-cases, Map,
}
use subsea_cable_runtime.Runtime.Policy.{is_terminal}
use subsea_cable_runtime.Runtime.State.{Run, Scope, Settings}
use subsea_cable_runtime.Runtime.Moves.{
  Mode, is_loud, Fits, keeps_outcome, changes, exposes, Move, logs, calls, puts, resolves, pushes,
  pops, marks, lands, launches, finishes, counts, hosts, gates, exhausts, Evolves, here, next,
}

-- There is a scope with the ID, and its state, output and diagnostic are those of `s`.
pub record HasOutcome {S : Type 0} (id : String) (s : Scope S) (m : Map String (Scope S))
    : Type 0 where
  pub found : Scope S
  pub there : get id m ≡ some found
  pub same_state : found.state ≡ s.state
  pub same_out : found.out ≡ s.out
  pub same_diag : found.diag ≡ s.diag

module _ {S : Type 0} {m : Mode} {id : String} {s : Scope S}
    (stays : (is_loud m ≡ false) ⊎ (is_terminal s.state ≡ true)) where
  fit-HasOutcome :
      (scopes : Map String (Scope S)) (j : String) (x : Scope S)
      → j ≡ id
      → Fits m (get j scopes) x
      → HasOutcome id s scopes
      → get id (put j x scopes) ≡ some x
      → HasOutcome id s (put j x scopes)
  fit-HasOutcome scopes j x e (keeps_outcome t a b c d) h g = record {
    found = x;
    there = g;
    same_state = cc (a, b, e, h.there, h.same_state);
    same_out = cc (a, c, e, h.there, h.same_out);
    same_diag = cc (a, d, e, h.there, h.same_diag);
  }
  fit-HasOutcome scopes j x e (changes t l a b) h g = elim stays [
    | inl q ↦ cc (l, q)
    | inr q ↦ cc (a, b, q, e, h.there, h.same_state)
  ]
  fit-HasOutcome scopes j x e (exposes l a b) h g = cc (a, e, h.there)

  put-HasOutcome :
      (scopes : Map String (Scope S)) (j : String) (x : Scope S)
      → Fits m (get j scopes) x
      → HasOutcome id s scopes
      → HasOutcome id s (put j x scopes)
  put-HasOutcome scopes j x f h = elim (Bool-cases (j == id)) [
    | inl e ↦
        fit-HasOutcome scopes j x ((string_eq.beq_iff j id).0 e) f h
          (get-put j id x scopes ∙ rw e refl)
    | inr e ↦ record {
      found = h.found;
      there = get-put j id x scopes ∙ rw e h.there;
      same_state = h.same_state;
      same_out = h.same_out;
      same_diag = h.same_diag;
    }
  ]

module _ {H S : Type 0} {set : Settings H S} {m : Mode} where
  -- What a move does to the scopes.
  pub scopes_after :
      {t u : Run H S}
      → Move set m t u
      → (u.scopes ≡ t.scopes)
        ⊎ ((j : String) × (x : Scope S) × Fits m (get j t.scopes) x × (u.scopes ≡ put j x t.scopes))
  scopes_after (logs e x) = inl (ap (λ v. v.scopes) x)
  scopes_after (calls e q x) = inl (ap (λ v. v.scopes) x)
  scopes_after (puts j s f x) = inr (j, s, f, ap (λ v. v.scopes) x)
  scopes_after (resolves id s a b x) = inl (ap (λ v. v.scopes) x)
  scopes_after (pushes it a x) = inl (ap (λ v. v.scopes) x)
  scopes_after (pops it rest a b x) = inl (ap (λ v. v.scopes) x)
  scopes_after (marks id at a x) = inl (ap (λ v. v.scopes) x)
  scopes_after (lands id x) = inl (ap (λ v. v.scopes) x)
  scopes_after (launches id at a b x) = inl (ap (λ v. v.scopes) x)
  scopes_after (finishes a b v w x) = inl (ap (λ v. v.scopes) x)
  scopes_after (counts w n x) = inl (ap (λ v. v.scopes) x)
  scopes_after (hosts h x) = inl (ap (λ v. v.scopes) x)
  scopes_after (gates h g a x) = inl (ap (λ v. v.scopes) x)
  scopes_after (exhausts x) = inl (ap (λ v. v.scopes) x)

  module _ {id : String} {s : Scope S}
      (stays : (is_loud m ≡ false) ⊎ (is_terminal s.state ≡ true)) where
    Move-HasOutcome :
        {t u : Run H S} → Move set m t u → HasOutcome id s t.scopes → HasOutcome id s u.scopes
    Move-HasOutcome {t} {u} mv h = elim (scopes_after mv) [
      | inl e ↦ rw e h
      | inr (j, x, f, e) ↦ rw e (put-HasOutcome stays t.scopes j x f h)
    ]

    pub Evolves-HasOutcome :
        {t u : Run H S} → Evolves set m t u → HasOutcome id s t.scopes → HasOutcome id s u.scopes
    Evolves-HasOutcome here h = h
    Evolves-HasOutcome (next a mv) h = Move-HasOutcome mv (Evolves-HasOutcome a h)
