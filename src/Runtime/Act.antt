-- ===== src/Runtime/Act.antt =====
-- The steps that the Runtime's methods are made of: an act takes a run to the run after it.
use subsea_cable_runtime.Base.{
  ℤ, suc, Bool, true, false, not, Option, none, some, String, List, [], ◌∷◌, string_eq, get, put,
  is_some,
}
use subsea_cable_runtime.Diag.{Diagnostic}
use subsea_cable_runtime.Value.{Output}
use subsea_cable_runtime.Carousel.{Config, Occurrence}
use subsea_cable_runtime.Carousel.Calls.{Call, step}
use subsea_cable_runtime.Host.{Status}
use subsea_cable_runtime.Runtime.Trace.{TraceEvent, trace_event, add_event}
use subsea_cable_runtime.Runtime.Policy.{is_terminal}
use subsea_cable_runtime.Runtime.State.{Run, Scope, ItemKind, push_item, Result}

pub data Act (H S : Type 0) : Type 0 where
  act : (Run H S → Run H S) → Act H S

-- terminal, of a scope that may be missing.
unfoldable pub is_settled : {S : Type 0} → Option (Scope S) → Bool
unfolding is_terminal
is_settled none = false
is_settled (some s) = is_terminal s.state

module _ {H S : Type 0} where
  unfoldable pub after : Act H S → Run H S → Run H S
  after (act f) = f

  unfoldable pub skip : Act H S
  skip = act (λ r. r)

  infixl 5 ◌▷◌
  unfoldable pub ◌▷◌ : Act H S → Act H S → Act H S
  unfolding after
  ◌▷◌ a b = act (λ r. after b (after a r))

  -- An act that depends on the run.
  unfoldable pub asking {ℓ} : {A : Type ℓ} → (Run H S → A) → (A → Act H S) → Act H S
  unfolding after
  asking f k = act (λ r. after (k (f r)) r)

  unfoldable pub when : Bool → Act H S → Act H S
  unfolding skip
  when true a = a
  when false a = skip

  unfoldable pub choose : Bool → Act H S → Act H S → Act H S
  choose true a b = a
  choose false a b = b

  unfoldable pub on_some {ℓ} : {A : Type ℓ} → Option A → (A → Act H S) → Act H S
  unfolding skip
  on_some none k = skip
  on_some (some a) k = k a

  unfoldable pub each {ℓ} : {A : Type ℓ} → (A → Act H S) → List A → Act H S
  unfolding ◌▷◌ skip
  each k [] = skip
  each k (x ∷ xs) = k x ▷ each k xs

  -- Scope, and Occurrence of the Carousel.
  unfoldable pub scope_of : String → Run H S → Option (Scope S)
  scope_of id r = get id r.scopes

  unfoldable pub occurrence_of : String → Run H S → Option Occurrence
  occurrence_of id r = get id r.car.occs

  -- The scope that a pointer names, and the occurrence that does.
  unfoldable pub with_scope : String → (Scope S → Act H S) → Act H S
  unfolding asking on_some scope_of
  with_scope id k = asking (scope_of id) (λ ms. on_some ms k)

  unfoldable pub with_occurrence : String → (Occurrence → Act H S) → Act H S
  unfolding asking on_some occurrence_of
  with_occurrence id k = asking (occurrence_of id) (λ mo. on_some mo k)

  -- Trace.addEvent, add and addDiag at the time of the run.
  unfoldable pub log : TraceEvent → Act H S
  unfolding add_event
  log e = act (λ r. record r { trace = add_event e r.trace })

  unfoldable pub note : String → String → Act H S
  unfolding log asking
  note kind occ = asking (λ r. r.now) (λ now. log (trace_event now kind occ))

  unfoldable pub note_diag : String → String → Option Diagnostic → Act H S
  unfolding log asking
  note_diag kind occ d =
      asking (λ r. r.now) (λ now. log (record (trace_event now kind occ) { diag = d }))

  unfoldable pub put_scope : String → Scope S → Act H S
  put_scope id s = act (λ r. record r { scopes = put id s r.scopes })

  -- An assignment to fields of a scope.
  unfoldable pub edit : String → (Scope S → Scope S) → Act H S
  unfolding with_scope put_scope
  edit id f = with_scope id (λ s. put_scope id (f s))

  -- A call on the Carousel, without what it returns.
  unfoldable pub tell : Config → Call → Act H S
  tell cfg x = act (λ r. record r { car = step cfg r.car x })

  -- push
  unfoldable pub push : ℤ → String → ItemKind → Act H S
  push at scope kind = act (λ r. record r {
    tl_seq = suc r.tl_seq;
    tl = push_item (record { at = at; seq = suc r.tl_seq; scope = scope; kind = kind }) r.tl;
  })

  unfoldable pub set_result : Result → Act H S
  set_result x = act (λ r. record r { result = some x })

  -- finish
  unfoldable pub finish : Status → Output → Option Diagnostic → Act H S
  unfolding asking when set_result note_diag ◌▷◌
  finish st out d =
      asking (λ r. is_some r.result)
        (λ done. when (not done) (
          asking (λ r. record { status = st; out = out; diag = d; steps = r.steps; time = r.now })
            set_result
          ▷ note_diag "RunCompleted" "r" d))

  -- The fuel of the model ran out.
  unfoldable pub exhaust : Act H S
  exhaust = act (λ r. record r { exhausted = true })
