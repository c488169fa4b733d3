-- ===== src/Runtime/Scopes.antt =====
-- The outcomes of scopes in runtime/runtime.go: settle, cancelSubtree and evaluateParent. A scope
-- settles its parent, and a policy that is consulted may settle more, so `settle` calls itself on
-- fuel. Each call makes one more scope terminal, and there is one scope for an exposed occurrence
-- at most, hence the fuel of `settle`; `exhausted` records a run that it did not cover.
-- The map of attempts in flight is gone through in the order of its entries.
use subsea_cable_runtime.Base.{
  ℕ, zero, suc, Bool, true, false, not, ◌&&◌, Option, none, some, String, List, [], ◌∷◌, map, ◌==◌,
  string_eq, get, put, length, if◌then◌else◌, Map,
}
use subsea_cable_runtime.Diag.{Diagnostic, host, policy, new}
use subsea_cable_runtime.Value.{
  Output, no_output, output, ValueMap, empty, map_value, with_entry, string_key, Value,
}
use subsea_cable_runtime.Carousel.{
  Occurrence, Kind, kind_goal, kind_arrow, kind_serial, kind_parallel, kind_map, kind_function,
  kind_anchor, is_leaf, deducible, is_undeduced,
}
use subsea_cable_runtime.Carousel.Calls
use subsea_cable_runtime.Host.{Status}
use subsea_cable_runtime.Host
use subsea_cable_runtime.Runtime.Policy.{
  ScopeState, undeduced, open_scope, satisfied, failed, cancelled, withdrawn, is_terminal,
  child_scope_outcome, cancel_requested, scope_outcome_proposed,
}
use subsea_cable_runtime.Runtime.State.{Scope, Attempt, Settings}
use subsea_cable_runtime.Runtime.Act.{
  act, Act, skip, ◌▷◌, asking, when, choose, on_some, each, occurrence_of, with_scope,
  with_occurrence, note, note_diag, put_scope, edit, tell, finish, exhaust,
}
use subsea_cable_runtime.Runtime.Actions.{Settle, notify, consult}
use subsea_cable_runtime.Runtime.Events.{ensure_scope, drain_events}

abbrev pub state_text : ScopeState → String
state_text undeduced = "Undeduced"
state_text open_scope = "Open"
state_text satisfied = "Satisfied"
state_text failed = "Failed"
state_text cancelled = "Cancelled"
state_text withdrawn = "Withdrawn"

abbrev pub is_satisfied : ScopeState → Bool
is_satisfied satisfied = true
is_satisfied _ = false

abbrev pub is_bad : ScopeState → Bool
is_bad failed = true
is_bad cancelled = true
is_bad withdrawn = true
is_bad _ = false

-- What evaluateParent proposes: the state, the output and the diagnostic.
abbrev pub Proposal : Type 0
Proposal = ScopeState × Output × Option Diagnostic

-- Go's zero Output.
abbrev pub zero_output : Output
zero_output = output Value.invalid

-- firstBad and allSatisfied
unfoldable pub first_bad : {S : Type 0} → List (Scope S) → Option (Scope S)
first_bad [] = none
first_bad (c ∷ cs) = if is_bad c.state then some c else first_bad cs

unfoldable pub all_satisfied : {S : Type 0} → List (Scope S) → Bool
all_satisfied [] = true
all_satisfied (c ∷ cs) = is_satisfied c.state && all_satisfied cs

unfoldable pub last : {S : Type 0} → Scope S → List (Scope S) → Scope S
last c [] = c
last c (d ∷ ds) = last d ds

unfoldable pub through : ScopeState → ScopeState
through withdrawn = failed
through st = st

unfoldable pub propose_child : {S : Type 0} → List (Scope S) → Option Proposal
unfolding through
propose_child [] = none
propose_child (c ∷ cs) = if is_terminal c.state then some (through c.state, c.out, c.diag) else none

unfoldable pub propose_last : {S : Type 0} → List (Scope S) → Option Proposal
unfolding last
propose_last [] = none
propose_last (c ∷ cs) =
    if is_satisfied (last c cs).state then some (satisfied, (last c cs).out, none) else none

-- The map of the children's values, or nothing when one of them has no output.
with_value : Output → (Value → Option ValueMap) → Option ValueMap
with_value no_output k = none
with_value (output v) k = k v

pub branch_values : {S : Type 0} → List String → List (Scope S) → ValueMap → Option ValueMap
unfolding with_value
branch_values [] cs m = some m
branch_values (k ∷ ks) [] m = some m
branch_values (k ∷ ks) (c ∷ cs) m =
    with_value c.out (λ v. branch_values ks cs (with_entry (string_key k) v m))

unfoldable pub propose_map : Option ValueMap → Proposal
propose_map (some m) = (satisfied, output (map_value m), none)
propose_map none = (failed, zero_output, some (new "NoOutputBranch" host none))

-- The cases of evaluateParent that look for a child that did not succeed first.
unfoldable pub unless_bad : {S : Type 0} → Option (Scope S) → Option Proposal → Option Proposal
unless_bad (some bad) rest = some (failed, zero_output, bad.diag)
unless_bad none rest = rest

unfoldable pub propose : {S : Type 0} → Kind → List String → List (Scope S) → Option Proposal
unfolding propose_child propose_last propose_map branch_values unless_bad first_bad all_satisfied
propose kind_goal keys cs = propose_child cs
propose kind_arrow keys cs = propose_child cs
propose kind_serial keys cs = unless_bad (first_bad cs) (propose_last cs)
propose kind_parallel keys cs =
    unless_bad (first_bad cs) (if all_satisfied cs then some (satisfied, no_output, none) else none)
propose kind_map keys cs =
    unless_bad (first_bad cs)
      (if all_satisfied cs then some (propose_map (branch_values keys cs empty)) else none)
propose kind_function keys cs = none
propose kind_anchor keys cs = none

-- The diagnostic of a proposal that did not succeed.
proposal_diag : ScopeState → Option Diagnostic → Option Diagnostic
proposal_diag satisfied d = d
proposal_diag st (some d) = some d
proposal_diag st none = some (new "ChildFailed" policy none)

collect : {S : Type 0} → List String → Map String (Scope S) → List (Scope S)
collect [] m = []
collect (id ∷ ids) m = elim (get id m) [ some s ↦ s ∷ collect ids m | none ↦ collect ids m ]

module _ {H S : Type 0} where
  unfoldable pub resolve_value : String → Output → Act H S
  resolve_value id out = act (λ r. record r { values = put id out r.values })

  unfoldable pub host_cancel : Settings H S → String → Act H S
  host_cancel set id = act (λ r. record r { host = set.port.cancel id r.host })

  unfoldable pub mark_cancelled : String → Attempt → Act H S
  mark_cancelled id at =
      act (λ r. record r { inflight = put id (record at { cancelled = true }) r.inflight })

  -- One attempt of the loop over those in flight.
  unfoldable pub cancel_attempt : Settings H S → String → String → Act H S
  unfolding asking on_some when mark_cancelled host_cancel note ◌▷◌
  cancel_attempt set cid id =
      asking (λ r. get id r.inflight)
        (λ mat. on_some mat (λ at.
          when (at.scope == cid && not at.cancelled)
            (mark_cancelled id at ▷ host_cancel set id ▷ note "EvaluationCancelRequested" cid)))

  unfoldable pub cancel_attempts : Settings H S → String → Act H S
  unfolding asking each cancel_attempt
  cancel_attempts set cid = asking (λ r. map (λ p. p.0) r.inflight) (each (cancel_attempt set cid))

  -- finish, for the outcome of the Root.
  unfoldable pub finish_root : ScopeState → Output → Option Diagnostic → Act H S
  unfolding finish
  finish_root satisfied out d = finish Host.succeeded out none
  finish_root cancelled out d = finish Host.cancelled no_output d
  finish_root _ out d = finish Host.failed no_output d

  module _ (set : Settings H S) (settle : Settle H S) where
    unfoldable pub withdraw_child : String → Act H S
    unfolding tell edit drain_events ◌▷◌
    withdraw_child cid =
        tell set.car_cfg (Calls.withdraws cid)
        ▷ edit cid (λ s. record s { state = withdrawn })
        ▷ drain_events set settle

    unfoldable pub stop_child : String → Occurrence → Act H S
    unfolding cancel_attempts notify edit when tell drain_events note ◌▷◌
    stop_child cid c =
        cancel_attempts set cid
        ▷ notify cid cancel_requested (λ acts. skip)
        ▷ edit cid (λ s. record s { state = cancelled })
        ▷ when (is_leaf c)
            (tell set.car_cfg (Calls.discards cid "cancelled") ▷ drain_events set settle)
        ▷ note "ScopeOutcome" cid

    unfoldable pub cancel_child : String → Act H S
    unfolding ensure_scope with_scope with_occurrence when choose withdraw_child stop_child ◌▷◌
    cancel_child cid =
        ensure_scope cid
        ▷ with_scope cid (λ s. when (not (is_terminal s.state)) (
            with_occurrence cid (λ c.
              choose (deducible c && is_undeduced c.state) (withdraw_child cid)
                (stop_child cid c))))

    -- cancelSubtree; the tree is no deeper than there are occurrences.
    unfoldable pub cancel_subtree : ℕ → String → Act H S
    unfolding exhaust with_occurrence each cancel_child ◌▷◌
    cancel_subtree zero id = exhaust
    cancel_subtree (suc f) id =
        with_occurrence id (λ o. each (λ cid. cancel_child cid ▷ cancel_subtree f cid) o.children)

    -- evaluateParent from the proposal on.
    unfoldable pub settle_parent : String → Proposal → Act H S
    unfolding consult when proposal_diag
    settle_parent id (st, out, d) =
        consult settle id (scope_outcome_proposed st)
          (λ stopped. when (not stopped) (settle id st out (proposal_diag st d)))

    -- evaluateParent
    unfoldable pub evaluate_parent : Occurrence → Act H S
    unfolding each ensure_scope asking on_some collect propose settle_parent ◌▷◌
    evaluate_parent p =
        each ensure_scope p.children
        ▷ asking (λ r. propose p.kind p.keys (collect p.children r.scopes))
            (λ proposal. on_some proposal (settle_parent p.id))

    -- The end of settle: the run finishes with its Root, and a parent hears of its child.
    unfoldable pub report_outcome :
        String → ScopeState → Output → Option Diagnostic → Option Occurrence → Act H S
    unfolding finish_root ensure_scope with_scope when consult evaluate_parent ◌▷◌
    report_outcome id st out d none = finish_root st out d
    report_outcome id st out d (some p) =
        ensure_scope p.id
        ▷ with_scope p.id (λ ps. when (not (is_terminal ps.state)) (
            consult settle p.id (child_scope_outcome id st)
              (λ stopped. when (not stopped) (evaluate_parent p))))

    -- What settle does before the outcome is logged.
    unfoldable pub release : String → ScopeState → Output → Occurrence → Act H S
    unfolding when tell drain_events with_occurrence resolve_value ◌▷◌
    release id st out o =
        when (is_leaf o)
          (tell set.car_cfg (Calls.discards id (state_text st)) ▷ drain_events set settle)
        ▷ with_occurrence id (λ o'.
          when (deducible o && is_undeduced o'.state) (tell set.car_cfg (Calls.withdraws id)))
        ▷ when (is_satisfied st) (resolve_value id out)

    unfoldable pub settle_scope :
        String → ScopeState → Output → Option Diagnostic → Scope S → Occurrence → Act H S
    unfolding put_scope release note_diag note choose asking cancel_subtree report_outcome
        occurrence_of ◌▷◌
    settle_scope id st out d s o =
        put_scope id (record s { state = st; out = out; diag = d })
        ▷ release id st out o
        ▷ note_diag "ScopeOutcome" id d
        ▷ choose (is_satisfied st) (note "ValueResolved" id)
            (asking (λ r. suc (length r.car.occs)) (λ depth. cancel_subtree depth id))
        ▷ asking (occurrence_of o.parent_id) (report_outcome id st out d)

    -- settle over the settle of the calls inside.
    unfoldable pub settle_body : Settle H S
    unfolding with_scope with_occurrence when settle_scope
    settle_body id st out d =
        with_scope id
          (λ s. when (not (is_terminal s.state)) (with_occurrence id (settle_scope id st out d s)))

  unfoldable pub settle_from : Settings H S → ℕ → Settle H S
  unfolding exhaust settle_body
  settle_from set zero id st out d = exhaust
  settle_from set (suc f) id st out d = settle_body set (settle_from set f) id st out d

  -- settle
  unfoldable pub settle : Settings H S → Settle H S
  unfolding asking settle_from
  settle set id st out d =
      asking (λ r. suc (length r.car.occs)) (λ f. settle_from set f id st out d)
