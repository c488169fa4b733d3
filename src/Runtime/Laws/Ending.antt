-- ===== src/Runtime/Laws/Ending.antt =====
-- Cancel ends a run whose Root has not settled.
use subsea_cable_runtime.Base.{
  ℕ, ◌≡◌, refl, ◌∙◌, ap, true, false, Option, none, some, String, get, length, string_eq, arith,
  Option-cases, Bool-cases, inl, inr, get-put,
}
use subsea_cable_runtime.Diag.{Diagnostic, policy, new}
use subsea_cable_runtime.Value.{Output, no_output}
use subsea_cable_runtime.Carousel.{Carousel, Config, Occurrence, drain, emit}
use subsea_cable_runtime.Carousel.Demand.Effects.{withdraw_effect}
use subsea_cable_runtime.Carousel.Demand.{demand, withdraw, set_prefetch}
use subsea_cable_runtime.Carousel.Touchdown.{consume_touchdown, discard_touchdown}
use subsea_cable_runtime.Carousel.Calls.{
  Call, opens_root, demands, withdraws, sets_prefetch, drains, consumes, discards, replenishes,
  step,
}
use subsea_cable_runtime.Carousel.Window.Authorization.{is_boundary}
use subsea_cable_runtime.Host.{Status}
use subsea_cable_runtime.Runtime.Policy.{ScopeState, is_terminal}
use subsea_cable_runtime.Runtime.Policy
use subsea_cable_runtime.Runtime.State.{Run, Scope, Settings}
use subsea_cable_runtime.Runtime.Act.{
  after, ◌▷◌, asking, when, skip, finish, set_result, note_diag, log, with_scope, with_occurrence,
  scope_of, occurrence_of, on_some,
}
use subsea_cable_runtime.Runtime.Scopes.{
  settle, settle_from, settle_body, settle_scope, report_outcome, finish_root,
}
use subsea_cable_runtime.Runtime.Reactor.{is_done, cancel}
use subsea_cable_runtime.Runtime.Moves.{
  inner, Move, logs, calls, puts, resolves, pushes, pops, marks, lands, launches, finishes, counts,
  hosts, gates, exhausts, Evolves, here, next,
}
use subsea_cable_runtime.Runtime.Laws.Budget.{unless_done, when_done, not_done}
use subsea_cable_runtime.Runtime.Moves.Settling.{before_report-From, settle_from-IsSettling}

-- No call that exposes nothing adds an occurrence.
step-absent :
    (cfg : Config) (p : String) (c : Carousel) (x : Call)
    → is_boundary x ≡ true
    → get p c.occs ≡ none
    → get p (step cfg c x).occs ≡ none
unfolding step demand withdraw set_prefetch drain consume_touchdown discard_touchdown
step-absent cfg p c (opens_root u) b h = cc
step-absent cfg p c (replenishes values f) b h = cc
step-absent cfg p c (demands id) b h = ground (arith, h)
step-absent cfg p c (withdraws id) b h = elim (withdraw_effect id c) [
  | inl e ↦ rw e.1 h
  | inr w ↦
      let known = w.known in
      rw w.after (unfold emit in simp get-put (ground (arith, h, known, string_eq.beq_iff id p)))
]
step-absent cfg p c (sets_prefetch n) b h = h
step-absent cfg p c drains b h = h
step-absent cfg p c (consumes id i att) b h = ground (arith, h)
step-absent cfg p c (discards id reason) b h = ground (arith, h)

module _ {H S : Type 0} {set : Settings H S} where
  Move-absent :
      (p : String) {t u : Run H S}
      → Move set inner t u
      → get p t.car.occs ≡ none
      → get p u.car.occs ≡ none
  Move-absent p (logs e x) h = rw x h
  Move-absent p {t} (calls c (inl b) x) h = rw x (step-absent set.car_cfg p t.car c b h)
  Move-absent p (calls c (inr o) x) h = cc
  Move-absent p (puts j s f x) h = rw x h
  Move-absent p (resolves j s a b x) h = rw x h
  Move-absent p (pushes it a x) h = rw x h
  Move-absent p (pops it rest o a x) h = rw x h
  Move-absent p (marks id at a x) h = rw x h
  Move-absent p (lands id x) h = rw x h
  Move-absent p (launches at o b q x) h = rw x h
  Move-absent p (finishes a b v w x) h = rw x h
  Move-absent p (counts w n x) h = rw x h
  Move-absent p (hosts k x) h = rw x h
  Move-absent p (gates k g a x) h = rw x h
  Move-absent p (exhausts x) h = rw x h

  Evolves-absent :
      (p : String) {t u : Run H S}
      → Evolves set inner t u
      → get p t.car.occs ≡ none
      → get p u.car.occs ≡ none
  Evolves-absent p here h = h
  Evolves-absent p (next a mv) h = Move-absent p mv (Evolves-absent p a h)

module _ {H S : Type 0} where
  finish-done :
      (st : Status) (out : Output) (d : Option Diagnostic) (r : Run H S)
      → is_done (after (finish st out d) r) ≡ true
  unfolding finish asking when set_result note_diag log ◌▷◌ after skip is_done
  finish-done st out d r = elim (Option-cases r.result) [
    | inl e ↦ rw e refl
    | inr (x, e) ↦ rw e refl
  ]

  finish_root-done :
      (st : ScopeState) (out : Output) (d : Option Diagnostic) (r : Run H S)
      → is_done (after (finish_root st out d) r) ≡ true
  unfolding finish_root
  finish_root-done Policy.satisfied out d r = finish-done _ _ _ r
  finish_root-done Policy.cancelled out d r = finish-done _ _ _ r
  finish_root-done Policy.undeduced out d r = finish-done _ _ _ r
  finish_root-done Policy.open_scope out d r = finish-done _ _ _ r
  finish_root-done Policy.failed out d r = finish-done _ _ _ r
  finish_root-done Policy.withdrawn out d r = finish-done _ _ _ r

module _ {H S : Type 0} (set : Settings H S) (r : Run H S) (id : String) (s : Scope S)
    (o : Occurrence) (scoped : get id r.scopes ≡ some s) (live : is_terminal s.state ≡ false)
    (known : get id r.car.occs ≡ some o) (top : get o.parent_id r.car.occs ≡ none) where
  settle_scope-done :
      (f : ℕ) (st : ScopeState) (out : Output) (d : Option Diagnostic)
      → is_done (after (settle_scope set (settle_from set f) id st out d s o) r) ≡ true
  unfolding settle_scope ◌▷◌ after asking occurrence_of report_outcome
  settle_scope-done f st out d =
      rw
        (Evolves-absent o.parent_id
          (before_report-From {m = inner} refl (settle_from-IsSettling set refl f) {r = r} id st out
            d s o scoped live).moves
          top)
        (finish_root-done st out d _)

  settle-done :
      (st : ScopeState) (out : Output) (d : Option Diagnostic)
      → is_done (after (settle set id st out d) r) ≡ true
  unfolding settle settle_from settle_body with_scope with_occurrence when on_some scope_of
      occurrence_of asking after
  settle-done st out d = rw (scoped, live, known) (settle_scope-done (length r.car.occs) st out d)

module _ {H S : Type 0} (set : Settings H S) (r : Run H S) (s : Scope S) (o : Occurrence) where
  -- After Cancel of a run whose Root has a scope that is not terminal and is an occurrence
  -- without a parent, the run has a result.
  pub cancel_ends :
      get "r" r.scopes ≡ some s
      → is_terminal s.state ≡ false
      → get "r" r.car.occs ≡ some o
      → get o.parent_id r.car.occs ≡ none
      → is_done (after (cancel set) r) ≡ true
  unfolding cancel
  cancel_ends scoped live known top = elim (Bool-cases (is_done r)) [
    | inl done ↦ rw (when_done _ r done) done
    | inr going ↦
        ap is_done (unless_done _ r (not_done r going))
        ∙ settle-done set r "r" s o scoped live known top Policy.cancelled no_output
            (some (new "RunCancelled" policy none))
  ]
