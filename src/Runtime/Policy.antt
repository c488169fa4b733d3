-- ===== src/Runtime/Policy.antt =====
-- runtime/policy.go: the events and actions of policies, and the registry. An interpreter is an
-- interface in the source; its state has the type `S`.
pub mod Binding
use subsea_cable_runtime.Base.{
  ℕ, ℤ, Bool, true, false, not, ◌||◌, Option, none, some, String, List, [], ◌∷◌, ◌==◌, string_eq,
  nat_eq, pair_eq, if◌then◌else◌, Map, get, put, is_some,
}
use subsea_cable_runtime.Diag.{Diagnostic, Err, policy, new, Res, ok, err}
use subsea_cable_runtime.Value.{Value}
use subsea_cable_runtime.Carousel.{
  Occurrence, PolicyRef, Kind, kind_goal, kind_arrow, kind_serial, kind_parallel, kind_map,
  kind_function, kind_anchor,
}
use subsea_cable_runtime.Host.{Outcome}

-- The runtime state of an exposed occurrence, which policies see.
pub data ScopeState : Type 0 where
  undeduced open_scope satisfied failed cancelled withdrawn : ScopeState

unfoldable pub is_terminal : ScopeState → Bool
is_terminal undeduced = false
is_terminal open_scope = false
is_terminal _ = true

pub data PolicyEvent : Type 0 where
  scope_opened : PolicyEvent
  child_scope_outcome : String → ScopeState → PolicyEvent
  before_attempt : ℕ → PolicyEvent
  attempt_outcome : Outcome → ℕ → PolicyEvent
  timer_fired : String → PolicyEvent
  cancel_requested : PolicyEvent
  scope_outcome_proposed : ScopeState → PolicyEvent

pub record PolicyContext : Type 0 where
  pub occurrence : Occurrence
  pub args : List Value
  pub now : ℕ
  pub attempts : ℕ

-- `other` is an action kind outside the closed set.
pub data Action : Type 0 where
  admit emit : Action
  hold reattempt : ℤ → Action
  start_timer : ℤ → String → Action
  cancel_scope fail_scope : Option Diagnostic → Action
  other : Action

pub record Interpreter (S : Type 0) : Type 0 where
  pub version : String
  pub targets : List Kind
  pub validate : List Value → Bool
  pub attach : PolicyContext → S
  pub on : PolicyEvent → S → PolicyContext → List Action × S

pub record Registry (S : Type 0) : Type 0 where
  pub interps : Map String (Interpreter S)
  pub pairs : Map (String × String) Bool

pub record BoundPolicy (S : Type 0) : Type 0 where
  pub ref : PolicyRef
  pub interp : Interpreter S
  pub state : S

kind_number : Kind → ℕ
kind_number kind_goal = 0
kind_number kind_arrow = 1
kind_number kind_serial = 2
kind_number kind_parallel = 3
kind_number kind_map = 4
kind_number kind_function = 5
kind_number kind_anchor = 6

pub supports : Kind → List Kind → Bool
unfolding kind_number
supports k [] = false
supports k (j ∷ js) = kind_number j == kind_number k || supports k js

-- policyDiag
pub policy_diag : String → Occurrence → PolicyRef → Diagnostic
policy_diag kind o ref =
    let d = new kind policy (some ref.span) in
    record d { occurrence = o.id; lineages = (if o.lineage == "" then [] else o.lineage ∷ []) }

module _ {S : Type 0} where
  -- NewRegistry, Register and AllowPair
  unfoldable pub new_registry : Registry S
  new_registry = record { interps = []; pairs = [] }

  unfoldable pub register_policy : String → Interpreter S → Registry S → Registry S
  register_policy ident i r = record r { interps = put ident i r.interps }

  unfoldable pub allow_pair : String → String → Registry S → Registry S
  allow_pair first second r = record r { pairs = put (first, second) true r.pairs }

  -- Whether `@prev @ident` may be stacked, if there is a policy before this one.
  pub may_follow : Registry S → Option String → String → Bool
  may_follow registry none ident = true
  may_follow registry (some prev) ident = is_some (get (prev, ident) registry.pairs)

  pub bound_and : Res (BoundPolicy S) → Res (List (BoundPolicy S)) → Res (List (BoundPolicy S))
  bound_and (err e) rest = err e
  bound_and (ok b) (err e) = err e
  bound_and (ok b) (ok bs) = ok (b ∷ bs)

  module _ (registry : Registry S) (o : Occurrence) (now : ℕ) where
    pub bind_checked : Option String → PolicyRef → Interpreter S → Res (BoundPolicy S)
    unfolding policy_diag supports may_follow
    bind_checked prev ref interp =
        if not (supports o.kind interp.targets)
        then err (Err.diagnostic (policy_diag "UnsupportedPolicyTarget" o ref))
        else if not (interp.validate ref.args)
        then err (Err.diagnostic (policy_diag "InvalidPolicyArguments" o ref))
        else if not (may_follow registry prev ref.ident)
        then err (Err.diagnostic (policy_diag "PolicyConflict" o ref))
        else ok (record {
          ref = ref;
          interp = interp;
          state =
              interp.attach (record { occurrence = o; args = ref.args; now = now; attempts = 0 });
        })

    pub bind_one : Option String → PolicyRef → Option (Interpreter S) → Res (BoundPolicy S)
    unfolding bind_checked policy_diag
    bind_one prev ref none = err (Err.diagnostic (policy_diag "UnknownPolicy" o ref))
    bind_one prev ref (some interp) = bind_checked prev ref interp

    -- The loop of bind; `prev` is the identifier of the policy before.
    unfoldable pub bind_from : Option String → List PolicyRef → Res (List (BoundPolicy S))
    unfolding bind_one bound_and
    bind_from prev [] = ok []
    bind_from prev (ref ∷ refs) =
        bound_and (bind_one prev ref (get ref.ident registry.interps))
          (bind_from (some ref.ident) refs)

    -- bind
    unfoldable pub bind : Res (List (BoundPolicy S))
    unfolding bind_from
    bind = bind_from none o.policies
