-- ===== src/Carousel/Expand.antt =====
-- expand and expandBody of carousel/carousel.go: the occurrences that one deduction would expose.
-- The result is the occurrence of the expression itself, followed by the ones below it in the order
-- of `staging.add`. Nothing here touches the Carousel.
use subsea_cable_runtime.Base.{
  ℕ, zero, suc, Bool, true, false, ◌&&◌, Option, none, some, String, List, [], ◌∷◌, ◌++◌, ◌==◌,
  string_eq, nat_eq, if◌then◌else◌, get, show_ℕ, ◌<>◌,
}
use subsea_cable_runtime.Diag.{
  Span, Err, diagnostic, exhausted, deduction, profile, new, Res, ok, err, span_eq,
}
use subsea_cable_runtime.Value.{Value}
use subsea_cable_runtime.Syntax.{
  Expr, Exprs, Entries, Policies, goal_arrow, func_arrow, serial, parallel, map_lit, name, anchor,
  policied, number_lit, string_lit, bool_lit, unary, binary, group, nil, cons, no_entries, entry,
  no_policies, policy, arity, Suffix, no_suffix, bracket_suffix, call_suffix, is_upper, exprs_len,
}
use subsea_cable_runtime.Expr.{Env, eval_all, eval_thunk, static_key}
use subsea_cable_runtime.Codebase.{Artifact}
use subsea_cable_runtime.Carousel.{
  Config, Occurrence, PolicyRef, blank, kind_goal, kind_arrow, kind_serial, kind_parallel, kind_map,
  kind_anchor, undeduced,
}

abbrev pub Staged : Type 0
Staged = Occurrence × List Occurrence

infixl 10 ◌>>=◌
abbrev pub ◌>>=◌ {ℓ κ} : {A : Type ℓ} {B : Type κ} → Res A → (A → Res B) → Res B
ok a >>= f = f a
err e >>= f = err e

finished {ℓ} : {A : Type ℓ} → Option (Res A × Unit {0}) → Res A
finished none = err exhausted
finished (some (r, s)) = r

bare_name : Expr → Bool
bare_name (name ident hash no_suffix args sp) = is_upper ident
bare_name _ = false

-- isBareGoal
is_bare_goal : Expr → Bool
unfolding bare_name
is_bare_goal (policied ps t sp) = bare_name t
is_bare_goal x = bare_name x

all_bare : Exprs → Bool
unfolding is_bare_goal
all_bare nil = true
all_bare (cons x xs) = all_bare xs && is_bare_goal x

join : String → String → String
join lineage seg = if lineage == "" then seg else lineage <> ("." <> seg)

pinned_of : Option Artifact → String → Span → String
pinned_of none hash at = ""
pinned_of (some a) hash at =
    if hash == "" then "" else elim (get at a.pinned) [ none ↦ "" | some h ↦ h ]

artifact_of : Option Artifact → String
artifact_of none = ""
artifact_of (some a) = a.hash

-- Where an occurrence stands: its ID, its parent's ID, the lineage, and the artifact in context.
pub record Place : Type 0 where
  pub id : String
  pub parent : String
  pub lineage : String
  pub art : Option Artifact

child_place : Place → ℕ → Place
child_place p i = record p { id = p.id <> ("." <> show_ℕ i); parent = p.id }

-- The arity, arguments, input and eagerness of a Goal reference.
goal_suffix : Suffix → Exprs → String → Occurrence → Occurrence
goal_suffix bracket_suffix args input o = record o { arity = exprs_len args; arg_exprs = args }
goal_suffix call_suffix args input o = record o {
  arity = exprs_len args;
  arg_exprs = args;
  eager = true;
}
goal_suffix no_suffix args input o =
    if input == "" then o else record o { arity = 1; input = input }

goal_lineage : String → Occurrence → Occurrence
unfolding join
goal_lineage lineage o = record o { lineage = join lineage (o.name <> ("/" <> show_ℕ o.arity)) }

goal_occurrence :
    Place → List PolicyRef → Env → String → String → String → Suffix → Exprs → Span → Occurrence
unfolding goal_suffix goal_lineage pinned_of
goal_occurrence p refs env input ident hash suffix args sp = goal_lineage p.lineage (
    goal_suffix suffix args input (record blank {
      id = p.id;
      kind = kind_goal;
      parent_id = p.parent;
      state = undeduced;
      name = ident;
      ref_kind = (if hash == "" then "unqualified" else "hash-qualified");
      pinned_hash = pinned_of p.art hash sp;
      policies = refs;
      env = env;
      ctx = p.art;
    }))

composite : Place → List PolicyRef → Occurrence
composite p refs = record blank {
  id = p.id;
  parent_id = p.parent;
  lineage = p.lineage;
  policies = refs;
}

after_stage : String → Staged → Staged
after_stage prev (o, below) =
    if prev == "" then (o, below) else (record o { deps = prev ∷ [] }, below)

flatten : List Staged → List Occurrence
flatten [] = []
flatten ((o, below) ∷ rest) = o ∷ (below ++ flatten rest)

ids : List Staged → List String
ids [] = []
ids ((o, below) ∷ rest) = o.id ∷ ids rest

module _ (cfg : Config) where
  -- Evaluator.EvalAll with no Anchor gateway, as during deduction.
  unfoldable pub eval_args : Exprs → Env → Res (List Value)
  unfolding finished eval_all eval_thunk
  eval_args xs env = finished (
      eval_all {S = Unit {0}} cfg.primitives none deduction
        (eval_thunk cfg.primitives none deduction cfg.fuel) xs env tt)

  policy_refs : Policies → Env → Res (List PolicyRef)
  unfolding eval_args
  policy_refs no_policies env = ok []
  policy_refs (policy ident args has_args sp ps) env = eval_args args env >>= λ vs.
      policy_refs ps env >>= λ refs. ok ((record { ident = ident; args = vs; span = sp }) ∷ refs)

  invalid : Option Span → Span → Err
  invalid none sp = diagnostic (new "InvalidStructuralContext" deduction (some sp))
  invalid (some outer) sp = diagnostic (new "InvalidStructuralContext" deduction (some outer))

  expand_name :
      Place → List PolicyRef → Env → String → String → String → Suffix → Exprs → Span → Res Staged
  unfolding goal_occurrence
  expand_name p refs env input ident hash bracket_suffix args sp =
      if is_upper ident
      then ok (goal_occurrence p refs env input ident hash bracket_suffix args sp, [])
      else err (diagnostic (new "UnsupportedByProfile" profile (some sp)))
  expand_name p refs env input ident hash suffix args sp =
      if is_upper ident
      then ok (goal_occurrence p refs env input ident hash suffix args sp, [])
      else err (diagnostic (new "InvalidStructuralContext" deduction (some sp)))

  unfoldable mutual
    unfolding policy_refs invalid expand_name composite child_place after_stage artifact_of all_bare
        flatten ids eval_args goal_occurrence

    -- `outer` is the span of the policies around the expression, whose values are `refs`.
    pub expand : Option Span → List PolicyRef → Expr → Env → String → Place → Res Staged
    expand none refs (policied ps t sp) env input p =
        policy_refs ps env >>= λ refs'. expand (some sp) refs' t env input p
    expand (some outer) refs (policied ps t sp) env input p = err (invalid (some outer) sp)
    expand outer refs (name ident hash suffix args sp) env input p =
        expand_name p refs env input ident hash suffix args sp
    expand outer refs (anchor ident called args sp) env input p = eval_args args env >>= λ vs. ok (
      record blank {
        id = p.id;
        kind = kind_anchor;
        parent_id = p.parent;
        leaf = ident;
        args = vs;
        artifact = artifact_of p.art;
        lineage = p.lineage;
        policies = refs;
      },
      [],
    )
    expand outer refs (goal_arrow params body sp) env input p = ok (
      record blank {
        id = p.id;
        kind = kind_arrow;
        parent_id = p.parent;
        state = undeduced;
        ref_kind = "inline-arrow";
        arity = arity params;
        arrow = some (record { params = params; body = body; span = sp });
        env = env;
        ctx = p.art;
        input = (if arity params == 1 then input else "");
        lineage = p.lineage;
        policies = refs;
      },
      [],
    )
    expand outer refs (serial xs sp) env input p = expand_serial xs env "" zero p >>= λ cs.
        ok (record (composite p refs) { kind = kind_serial; children = ids cs }, flatten cs)
    expand outer refs (parallel xs sp) env input p =
        expand_parallel xs env (if all_bare xs then input else "") zero p >>= λ cs.
        ok (record (composite p refs) { kind = kind_parallel; children = ids cs }, flatten cs)
    expand outer refs (map_lit es sp) env input p = err (invalid outer sp)
    expand outer refs (func_arrow ps b sp) env input p = err (invalid outer sp)
    expand outer refs (number_lit t sp) env input p = err (invalid outer sp)
    expand outer refs (string_lit r v e sp) env input p = err (invalid outer sp)
    expand outer refs (bool_lit b sp) env input p = err (invalid outer sp)
    expand outer refs (unary o x sp) env input p = err (invalid outer sp)
    expand outer refs (binary o l r sp) env input p = err (invalid outer sp)
    expand outer refs (group x sp) env input p = err (invalid outer sp)

    -- The stages of a serial composition; `prev` is the ID of the stage before.
    pub expand_serial : Exprs → Env → String → ℕ → Place → Res (List Staged)
    expand_serial nil env prev i p = ok []
    expand_serial (cons x xs) env prev i p = expand none [] x env prev (child_place p i) >>= λ c.
        expand_serial xs env c.0.id (suc i) p >>= λ cs. ok (after_stage prev c ∷ cs)

    pub expand_parallel : Exprs → Env → String → ℕ → Place → Res (List Staged)
    expand_parallel nil env fan i p = ok []
    expand_parallel (cons x xs) env fan i p = expand none [] x env fan (child_place p i) >>= λ c.
        expand_parallel xs env fan (suc i) p >>= λ cs. ok (c ∷ cs)

  expand_entries : Entries → Env → ℕ → Place → Res (List Staged)
  unfolding expand child_place
  expand_entries no_entries env i p = ok []
  expand_entries (entry k x es) env i p = expand none [] x env "" (child_place p i) >>= λ c.
      expand_entries es env (suc i) p >>= λ cs. ok (c ∷ cs)

  entry_keys : Entries → List String
  entry_keys no_entries = []
  entry_keys (entry k x es) = (static_key k).display ∷ entry_keys es

  resolving_map : List PolicyRef → Entries → Env → Place → Res Staged
  unfolding expand_entries entry_keys composite flatten ids
  resolving_map refs es env p = expand_entries es env zero p >>= λ cs. ok (
    record (composite p refs) { kind = kind_map; children = ids cs; keys = entry_keys es },
    flatten cs,
  )

  policied_body : Policies → Expr → Span → Env → Place → Res Staged
  unfolding policy_refs resolving_map expand
  policied_body ps (map_lit es sp') sp env p =
      policy_refs ps env >>= λ refs. resolving_map refs es env p
  policied_body ps t sp env p = expand none [] (policied ps t sp) env "" p

  -- expandBody
  unfoldable pub expand_body : Expr → Env → Place → Res Staged
  unfolding policied_body resolving_map expand
  expand_body (map_lit es sp) env p = resolving_map [] es env p
  expand_body (policied ps t sp) env p = policied_body ps t sp env p
  expand_body x env p = expand none [] x env "" p
