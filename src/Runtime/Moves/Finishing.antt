-- ===== src/Runtime/Moves/Finishing.antt =====
-- The moves of finish and of a cancelled attempt, and the regimes that settle's parts run under.
use subsea_cable_runtime.Base.{
  ◌≡◌, inl, inr, refl, true, false, not, Option, none, some, String, get, string_eq, ◌==◌, ◌&&◌,
}
use subsea_cable_runtime.Diag.{Diagnostic}
use subsea_cable_runtime.Value.{Output}
use subsea_cable_runtime.Host.{Status}
use subsea_cable_runtime.Runtime.Policy.{
  ScopeState, undeduced, open_scope, satisfied, failed, cancelled, withdrawn, is_terminal,
}
use subsea_cable_runtime.Runtime.State.{Run, Scope, Attempt, Settings, Result}
use subsea_cable_runtime.Runtime.Act.{after, ◌▷◌, when, on_some, finish, set_result, note}
use subsea_cable_runtime.Runtime.Scopes.{
  host_cancel, mark_cancelled, cancel_attempt, cancel_attempts, finish_root, is_satisfied,
}
use subsea_cable_runtime.Runtime.Moves.{Mode, quiet, marks, hosts, finishes, Evolves}
use subsea_cable_runtime.Runtime.Moves.Acts.{
  Safe, From, Regime, Evolves-louder, one, safe_acts, acts_from, From-each, skip-Safe, note-Safe,
}
use subsea_cable_runtime.Runtime.Moves.Reports.{not-is_some}
use subsea_cable_runtime.Runtime.Moves.Outcomes.{HasOutcome, Evolves-HasOutcome}

module _ {H S : Type 0} {set : Settings H S} where
  host_cancel-Safe : {m : Mode} (id : String) → Safe set m (host_cancel set id)
  unfolding host_cancel after
  host_cancel-Safe id = record { moves = λ r. one (hosts (set.port.cancel id r.host) refl) }

  mark_cancelled-From :
      {m : Mode} {r : Run H S} (id : String) (at : Attempt)
      → get id r.inflight ≡ some at
      → From set m r (mark_cancelled id at)
  unfolding mark_cancelled after
  mark_cancelled-From id at e = record {
    moves = one (marks id (record at { cancelled = true }) (rw e refl) refl);
  }

  cancel_attempt-From :
      {m : Mode} {r : Run H S} (cid id : String) (mat : Option Attempt)
      → get id r.inflight ≡ mat
      → From set m r (
          on_some mat (λ at.
            when
              (at.scope == cid && not at.cancelled)
              (mark_cancelled id at ▷ host_cancel set id ▷ note "EvaluationCancelRequested" cid)))
  unfolding on_some
  cancel_attempt-From cid id none e = From-each skip-Safe
  cancel_attempt-From cid id (some at) e =
      search (acts_from, mark_cancelled-From, e, host_cancel-Safe, note-Safe)

  pub cancel_attempts-Safe : {m : Mode} (cid : String) → Safe set m (cancel_attempts set cid)
  unfolding cancel_attempts cancel_attempt
  cancel_attempts-Safe cid = search (safe_acts, cancel_attempt-From, acts_from, refl) depth 8

  -- Any mode has the quiet moves.
  pub from_quiet : {m : Mode} {r t : Run H S} → Evolves set quiet r t → Evolves set m r t
  from_quiet e = Evolves-louder (λ q. cc q) (λ q. cc q) (λ q. cc q) e

  set_result-From :
      {m : Mode} {r : Run H S} (x : Result)
      → r.result ≡ none
      → x.steps ≡ r.steps
      → x.time ≡ r.now
      → From set m r (set_result x)
  unfolding set_result after
  set_result-From x e a b = record { moves = one (finishes x e a b refl) }

  pub finish-Safe :
      {m : Mode} (st : Status) (out : Output) (d : Option Diagnostic) → Safe set m (finish st out d)
  unfolding finish
  finish-Safe st out d = search (acts_from, safe_acts, set_result-From, not-is_some) depth 8

  pub finish_root-Safe :
      {m : Mode} (st : ScopeState) (out : Output) (d : Option Diagnostic)
      → Safe set m (finish_root st out d)
  unfolding finish_root
  finish_root-Safe satisfied out d = finish-Safe _ _ _
  finish_root-Safe cancelled out d = finish-Safe _ _ _
  finish_root-Safe undeduced out d = finish-Safe _ _ _
  finish_root-Safe open_scope out d = finish-Safe _ _ _
  finish_root-Safe failed out d = finish-Safe _ _ _
  finish_root-Safe withdrawn out d = finish-Safe _ _ _

-- The runs that hold a scope that is not terminal.
pub record IsLive {H S : Type 0} (id : String) (r : Run H S) : Type 0 where
  pub scope : Scope S
  pub there : get id r.scopes ≡ some scope
  pub not_settled : is_terminal scope.state ≡ false

-- The runs that hold a scope with an outcome, if that is satisfied.
pub record IsResolved {H S : Type 0} (id : String) (s : Scope S) (r : Run H S) : Type 0 where
  pub outcome : is_satisfied s.state ≡ true → HasOutcome id s r.scopes

satisfied-terminal : (st : ScopeState) → is_satisfied st ≡ true → is_terminal st ≡ true
unfolding is_terminal
satisfied-terminal satisfied h = refl
satisfied-terminal undeduced h = cc
satisfied-terminal open_scope h = cc
satisfied-terminal failed h = cc
satisfied-terminal cancelled h = cc
satisfied-terminal withdrawn h = cc

pub satisfied-only : (st : ScopeState) → is_satisfied st ≡ true → st ≡ satisfied
satisfied-only satisfied h = refl
satisfied-only undeduced h = cc
satisfied-only open_scope h = cc
satisfied-only failed h = cc
satisfied-only cancelled h = cc
satisfied-only withdrawn h = cc

module _ {H S : Type 0} {set : Settings H S} where
  pub IsLive-keeps :
      {id : String} {r t : Run H S} → Evolves set quiet r t → IsLive id r → IsLive id t
  IsLive-keeps {id} {r} e l =
      let h : HasOutcome id l.scope _ = Evolves-HasOutcome (inl refl) e (record {
        found = l.scope;
        there = l.there;
        same_state = refl;
        same_out = refl;
        same_diag = refl;
      }) in
      record { scope = h.found; there = h.there; not_settled = rw h.same_state l.not_settled }

  abbrev pub live_regime : String → Mode → Regime set
  live_regime id m = record {
    base = quiet;
    mode = m;
    Pre = IsLive id;
    below = λ e. from_quiet e;
    keeps = λ e l. IsLive-keeps e l;
  }

  pub IsResolved-keeps :
      {m : Mode} {id : String} {s : Scope S} {r t : Run H S}
      → Evolves set m r t
      → IsResolved id s r
      → IsResolved id s t
  IsResolved-keeps {m} {id} {s} e h = record {
    outcome = λ sat. Evolves-HasOutcome (inr (satisfied-terminal s.state sat)) e (h.outcome sat);
  }

  abbrev pub resolved_regime : String → Scope S → Mode → Regime set
  resolved_regime id s m = record {
    base = m;
    mode = m;
    Pre = IsResolved id s;
    below = λ e. e;
    keeps = λ e h. IsResolved-keeps e h;
  }
