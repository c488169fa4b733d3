-- ===== src/Runtime/Dispatch.antt =====
-- dispatch of runtime/runtime.go.
use subsea_cable_runtime.Base.{
  ℕ, zero, suc, Bool, true, false, not, ◌&&◌, ◌||◌, Option, none, some, String, List, [], ◌∷◌, ◌++◌,
  ◌==◌, string_eq, nat_eq, get, length, if◌then◌else◌, leb, ℤ, pos, negsuc, show_ℕ, ◌<>◌, str_join,
  is_some, Map,
}
use subsea_cable_runtime.Carousel.{Occurrence, is_leaf, occurrences}
use subsea_cable_runtime.Runtime.Policy.{before_attempt}
use subsea_cable_runtime.Runtime.State.{
  Scope, LeafPhase, waiting, eligible, in_flight, Settings, backoff, due, is_later,
}
use subsea_cable_runtime.Runtime.Act.{
  Act, skip, ◌▷◌, asking, when, choose, with_scope, with_occurrence, note, edit, push,
}
use subsea_cable_runtime.Runtime.Demand.{structural_reasons, is_empty}
use subsea_cable_runtime.Runtime.Launch.{start}
use subsea_cable_runtime.Runtime.Actions.{consult}
use subsea_cable_runtime.Runtime.Events.{is_open}
use subsea_cable_runtime.Runtime.Scopes.{settle}

abbrev is_waiting : LeafPhase → Bool
is_waiting waiting = true
is_waiting _ = false

abbrev is_eligible : LeafPhase → Bool
is_eligible eligible = true
is_eligible _ = false

abbrev is_in_flight : LeafPhase → Bool
is_in_flight in_flight = true
is_in_flight _ = false

show_int : ℤ → String
show_int (pos n) = show_ℕ n
show_int (negsuc n) = "-" <> show_ℕ (suc n)

module _ {S : Type 0} where
  -- What leafScopes keeps.
  is_dispatchable : Option (Scope S) → Bool
  is_dispatchable none = false
  is_dispatchable (some s) = is_open s.state && not (is_in_flight s.leaf)

  leaf_ids : Map String (Scope S) → List Occurrence → List String
  unfolding is_leaf is_dispatchable
  leaf_ids m [] = []
  leaf_ids m (o ∷ os) =
      let rest = leaf_ids m os in
      if is_leaf o && is_dispatchable (get o.id m) then o.id ∷ rest else rest

  held_until : ℕ → Scope S → List String
  unfolding show_int
  held_until now s =
      if is_later now s.not_before then ("notBefore:" <> show_int s.not_before) ∷ [] else []

module _ {H S : Type 0} (set : Settings H S) where
  -- A leaf that has to wait is marked and logged when its reasons are new.
  unfoldable pub wait : String → Scope S → List String → Act H S
  unfolding when edit note ◌▷◌
  wait id s reasons =
      when (not (is_waiting s.leaf) || not (str_join "," s.wait_reasons == str_join "," reasons)) (
        edit id (λ s'. record s' { leaf = waiting; wait_reasons = reasons })
        ▷ note "EvaluationWaiting" id)

  unfoldable pub mark_eligible : String → Scope S → Act H S
  unfolding when edit note ◌▷◌
  mark_eligible id s = when (not (is_eligible s.leaf)) (
      edit id (λ s'. record s' { leaf = eligible; wait_reasons = [] })
      ▷ note "EvaluationEligible" id)

  -- The policies, then the start; `next` goes on with the loop, unless the run has finished.
  unfoldable pub attempt_leaf : Occurrence → Act H S → Act H S
  unfolding with_scope consult settle choose asking start when ◌▷◌
  attempt_leaf o next = with_scope o.id (λ s.
      consult (settle set) o.id (before_attempt (suc s.attempts)) (λ settled. with_scope o.id (λ s'.
        asking (λ r. r.now)
          (λ now.
            choose (settled || is_later now s'.not_before) next
              (start set s' o ▷ asking (λ r. is_some r.result) (λ done. when (not done) next))))))

  -- The answer of the hook, in ticks.
  unfoldable pub withhold_for : Occurrence → ℕ → ℤ → Act H S → Act H S
  unfolding attempt_leaf edit push note ◌▷◌
  withhold_for o now (pos zero) next = attempt_leaf o next
  withhold_for o now (negsuc n) next = attempt_leaf o next
  withhold_for o now (pos (suc n)) next =
      edit o.id (λ s. record s { not_before = due now (pos (suc n)) })
      ▷ push (due now (pos (suc n))) o.id backoff
      ▷ note "DispatchWithheld" o.id
      ▷ next

  unfoldable pub ask_hook : Option (String → ℤ) → Occurrence → Scope S → ℕ → Act H S → Act H S
  unfolding choose edit withhold_for attempt_leaf ◌▷◌
  ask_hook none o s now next = attempt_leaf o next
  ask_hook (some hook) o s now next =
      choose (s.attempts == 0 && not s.withheld)
        (edit o.id (λ s'. record s' { withheld = true }) ▷ withhold_for o now (hook o.id) next)
        (attempt_leaf o next)

  unfoldable pub ready_leaf : Occurrence → Scope S → ℕ → Act H S → Act H S
  unfolding mark_eligible asking choose ask_hook ◌▷◌
  ready_leaf o s now next =
      mark_eligible o.id s
      ▷ asking (λ r. leb set.concurrency (length r.inflight))
          (λ full. choose full next (ask_hook set.withhold o s now next))

  unfoldable pub dispatch_leaf : String → Act H S → Act H S
  unfolding with_scope with_occurrence asking structural_reasons held_until choose wait ready_leaf
      ◌▷◌
  dispatch_leaf id next = with_scope id (λ s. with_occurrence id (λ o.
      asking (λ r. r.now)
        (λ now.
          asking (λ r. structural_reasons r.car r.scopes o ++ held_until now s)
            (λ reasons.
              choose (is_empty reasons) (ready_leaf o s now next) (wait id s reasons ▷ next)))))

  unfoldable pub dispatch_each : List String → Act H S
  unfolding dispatch_leaf
  dispatch_each [] = skip
  dispatch_each (id ∷ ids) = dispatch_leaf id (dispatch_each ids)

  -- dispatch
  unfoldable pub dispatch : Act H S
  unfolding asking leaf_ids occurrences dispatch_each
  dispatch = asking (λ r. leaf_ids r.scopes (occurrences r.car)) dispatch_each
