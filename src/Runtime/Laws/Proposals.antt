-- ===== src/Runtime/Laws/Proposals.antt =====
-- What a composite scope needs of its children to propose that it is satisfied.
use subsea_cable_runtime.Base.{
  ◌≡◌, refl, ap, true, false, Option, none, some, String, List, [], ◌∷◌, ◌++◌, All, arith,
  if◌then◌else◌, Bool-cases, inl, inr,
}
use subsea_cable_runtime.Diag.{Diagnostic}
use subsea_cable_runtime.Value.{Output, no_output, output, ValueMap, map_value, empty}
use subsea_cable_runtime.Carousel.{
  Kind, kind_goal, kind_arrow, kind_serial, kind_parallel, kind_map, kind_function, kind_anchor,
}
use subsea_cable_runtime.Runtime.Policy.{
  ScopeState, undeduced, open_scope, satisfied, failed, cancelled, withdrawn, is_terminal,
}
use subsea_cable_runtime.Runtime.State.{Scope}
use subsea_cable_runtime.Runtime.Scopes.{
  propose, propose_child, propose_last, propose_map, branch_values, unless_bad, first_bad, Proposal,
  all_satisfied, last, through, is_satisfied, is_bad,
}

satisfied_state : (st : ScopeState) → is_satisfied st ≡ true → st ≡ satisfied
satisfied_state satisfied h = refl
satisfied_state undeduced h = cc
satisfied_state open_scope h = cc
satisfied_state failed h = cc
satisfied_state cancelled h = cc
satisfied_state withdrawn h = cc

through_satisfied : (st : ScopeState) → through st ≡ satisfied → st ≡ satisfied
unfolding through
through_satisfied satisfied h = refl
through_satisfied undeduced h = h
through_satisfied open_scope h = h
through_satisfied failed h = h
through_satisfied cancelled h = h
through_satisfied withdrawn h = cc

map_value_of :
    (mm : Option ValueMap) (out : Output) (d : Option Diagnostic)
    → propose_map mm ≡ (satisfied, out, d)
    → (m : ValueMap) × (out ≡ output (map_value m))
unfolding propose_map
map_value_of none out d h = cc
map_value_of (some m) out d h = (m, cc h)

module _ {S : Type 0} where
  abbrev pub AllSatisfied : List (Scope S) → Type 0
  AllSatisfied cs = All (λ c. c.state ≡ satisfied) cs

  -- The one child of a Goal or an inline arrow, and the last step of a Serial.
  abbrev pub First : List (Scope S) → Output → Type 0
  First cs out =
      (c : Scope S) × (rest : List (Scope S)) × (cs ≡ c ∷ rest)
      × (c.state ≡ satisfied)
      × (c.out ≡ out)

  abbrev pub Final : List (Scope S) → Output → Type 0
  Final cs out =
      (c : Scope S) × (before : List (Scope S)) × (cs ≡ before ++ c ∷ [])
      × (c.state ≡ satisfied)
      × (c.out ≡ out)

  -- What a satisfied proposal is earned by, for each kind.
  abbrev pub Earned : Kind → List (Scope S) → Output → Type 0
  Earned kind_goal cs out = First cs out
  Earned kind_arrow cs out = First cs out
  Earned kind_serial cs out = Final cs out × All (λ c. is_bad c.state ≡ false) cs
  Earned kind_parallel cs out = AllSatisfied cs × (out ≡ no_output)
  Earned kind_map cs out = AllSatisfied cs × ((m : ValueMap) × (out ≡ output (map_value m)))
  Earned kind_function cs out = ⊥
  Earned kind_anchor cs out = ⊥

  all_satisfied-AllSatisfied : (cs : List (Scope S)) → all_satisfied cs ≡ true → AllSatisfied cs
  unfolding all_satisfied
  all_satisfied-AllSatisfied [] h = tt
  all_satisfied-AllSatisfied (c ∷ cs) h = (
    satisfied_state c.state (ground (arith, h)),
    all_satisfied-AllSatisfied cs (ground (arith, h)),
  )

  none_bad : (cs : List (Scope S)) → first_bad cs ≡ none → All (λ c. is_bad c.state ≡ false) cs
  unfolding first_bad
  none_bad [] h = tt
  none_bad (c ∷ cs) h = (ground (arith, h), none_bad cs (ground (arith, h)))

  -- A proposal that is not a failure comes from children that none is bad of.
  unless_bad_satisfied :
      (mb : Option (Scope S)) (rest : Option (ScopeState × Output × Option Diagnostic))
      (out : Output) (d : Option Diagnostic)
      → unless_bad mb rest ≡ some (satisfied, out, d)
      → (mb ≡ none) × (rest ≡ some (satisfied, out, d))
  unfolding unless_bad
  unless_bad_satisfied none rest out d h = (refl, h)
  unless_bad_satisfied (some b) rest out d h = cc

  last-Final :
      (c : Scope S) (cs : List (Scope S))
      → (before : List (Scope S)) × (c ∷ cs ≡ before ++ last c cs ∷ [])
  unfolding last
  last-Final c [] = ([], refl)
  last-Final c (x ∷ xs) = let (before, e) = last-Final x xs in (c ∷ before, ap (λ t. c ∷ t) e)

  child-First :
      (cs : List (Scope S)) (out : Output) (d : Option Diagnostic)
      → propose_child cs ≡ some (satisfied, out, d)
      → First cs out
  unfolding propose_child
  child-First [] out d h = cc
  child-First (c ∷ cs) out d h = elim (Bool-cases (is_terminal c.state)) [
    | inr e ↦ ground (arith, h, e)
    | inl e ↦
        let made : Proposal = (through c.state, c.out, c.diag) in
        let wanted : Proposal = (satisfied, out, d) in
        let same : some made ≡ some wanted = ground (arith, h, e) in
        (c, cs, refl, through_satisfied c.state (cc same), cc same)
  ]

  last_step-Final :
      (cs : List (Scope S)) (out : Output) (d : Option Diagnostic)
      → propose_last cs ≡ some (satisfied, out, d)
      → Final cs out
  unfolding propose_last
  last_step-Final [] out d h = cc
  last_step-Final (c ∷ cs) out d h = elim (Bool-cases (is_satisfied (last c cs).state)) [
    | inr e ↦ ground (arith, h, e)
    | inl e ↦
        let (before, split) = last-Final c cs in
        (last c cs, before, split, satisfied_state _ e, ground (arith, h, e))
  ]

  abbrev all_made : List (Scope S) → Proposal → Option Proposal
  all_made cs p = if all_satisfied cs then some p else none

  parallel-Earned :
      (cs : List (Scope S)) (out : Output) (d : Option Diagnostic)
      → all_made cs (satisfied, no_output, none) ≡ some (satisfied, out, d)
      → AllSatisfied cs × (out ≡ no_output)
  parallel-Earned cs out d h =
      (all_satisfied-AllSatisfied cs (ground (arith, h)), ground (arith, h))

  map-Earned :
      (mm : Option ValueMap) (cs : List (Scope S)) (out : Output) (d : Option Diagnostic)
      → all_made cs (propose_map mm) ≡ some (satisfied, out, d)
      → AllSatisfied cs × ((m : ValueMap) × (out ≡ output (map_value m)))
  map-Earned mm cs out d h = elim (Bool-cases (all_satisfied cs)) [
    | inl e ↦ (all_satisfied-AllSatisfied cs e, map_value_of mm out d (ground (arith, h, e)))
    | inr e ↦ ground (arith, h, e)
  ]

  -- Where evaluateParent proposes that a scope is satisfied, its children earn it: the first
  -- child of a Goal or an inline arrow is satisfied and its output is proposed; the last child of
  -- a Serial is satisfied and its output is proposed, and no child failed, was cancelled or was
  -- withdrawn; all children of a Parallel are satisfied and no output is proposed; all children
  -- of a resolving map are satisfied and a map is proposed. A leaf proposes nothing.
  pub propose-Earned :
      (kind : Kind) (keys : List String) (cs : List (Scope S)) (out : Output)
      (d : Option Diagnostic)
      → propose kind keys cs ≡ some (satisfied, out, d)
      → Earned kind cs out
  unfolding propose
  propose-Earned kind_goal keys cs out d h = child-First cs out d h
  propose-Earned kind_arrow keys cs out d h = child-First cs out d h
  propose-Earned kind_serial keys cs out d h =
      let (good, ends) = unless_bad_satisfied (first_bad cs) (propose_last cs) out d h in
      (last_step-Final cs out d ends, none_bad cs good)
  propose-Earned kind_parallel keys cs out d h =
      parallel-Earned cs out d (unless_bad_satisfied (first_bad cs) _ out d h).1
  propose-Earned kind_map keys cs out d h =
      map-Earned (branch_values keys cs empty) cs out d
        (unless_bad_satisfied (first_bad cs) _ out d h).1
  propose-Earned kind_function keys cs out d h = cc
  propose-Earned kind_anchor keys cs out d h = cc
