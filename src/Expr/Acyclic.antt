-- ===== src/Expr/Acyclic.antt =====
-- Names and lookups in a unit whose top-level bindings are ranked answer, given that following a
-- binding of a lower rank does.
use subsea_cable_runtime.Base.{
  ℕ, ◌<◌, ◌≡◌, refl, sym, true, Option, none, some, String, ◌==◌, string_eq, ◌||◌, is_some, arith,
  Bool-cases, Option-cases, inl, inr, subst,
}
use subsea_cable_runtime.Diag.{Phase, Span, Res, ok, err}
use subsea_cable_runtime.Value.{Value, Key, key_of, get_entry}
use subsea_cable_runtime.Syntax.{
  Expr, Entries, goal_arrow, func_arrow, serial, parallel, map_lit, name, anchor, policied,
  number_lit, string_lit, bool_lit, unary, binary, group, no_entries, entry,
}
use subsea_cable_runtime.Expr.Monad.{Eval, pure, throw, ◌>>=◌}
use subsea_cable_runtime.Expr.{
  Primitives, UnitEnv, Binding, value, pending_on, thunk, Env, env_lookup, AnchorCaller,
  resolve_binding, entry_binding, in_map, select_in, lookup_binding, lookup_entry, entry_value,
  apply_unary, apply_binary, select, unwrap_group, lookup_key, wildcard, static_key, is_wildcard,
  fail, wrap_prim,
}
use subsea_cable_runtime.Expr.Total.{
  Total, Below, BelowEntries, Yields, bind-Yields, then-Yields, bind-Total, wrap_prim-Total,
  eval_not-Total, short_circuit-Total,
}

module _ {S : Type 0} (prim : Primitives) (anchors : Option (AnchorCaller S)) (phase : Phase)
    (u : UnitEnv) (rank : String → ℕ) (call : Expr → UnitEnv → Eval S Value) where
  -- Following a binding of a lower rank answers.
  abbrev pub Calls : ℕ → Type 0
  Calls k = (r : ℕ) (x : Expr) → r < k → Below rank r x → Total (call x u)

  -- What a name below `k` resolves to, if anything.
  abbrev pub Good : ℕ → Option Binding → Type 0
  Good k mb =
      (x : Expr) (v : UnitEnv)
      → mb ≡ some (thunk x v)
      → (v ≡ u) × ((r : ℕ) × (r < k) × Below rank r x)

  pub resolve_binding-Total :
      (k : ℕ) (at : Span) (mb : Option Binding)
      → Calls k
      → Good k mb
      → Total (resolve_binding prim anchors phase call at mb)
  unfolding resolve_binding pure throw fail
  resolve_binding-Total k at none c g s = refl
  resolve_binding-Total k at (some (value v)) c g s = refl
  resolve_binding-Total k at (some (pending_on occ)) c g s = refl
  resolve_binding-Total k at (some (thunk x v)) c g s =
      let (same, (r, lt, below)) = g x v refl in
      subst (λ w. is_some (call x w s) ≡ true) (sym same) (c r x lt below s)

  abbrev GoodBinding : ℕ → Binding → Type 0
  GoodBinding k b = Good k (some b)

  value-Good : (k : ℕ) (v : Value) → GoodBinding k (value v)
  value-Good k v x w e = cc

  in_map-Yields :
      (k : ℕ) (at : Span) (key : Key) (v : Value)
      → Yields (GoodBinding k) (in_map prim anchors phase call at key v)
  unfolding in_map pure throw Yields
  in_map-Yields k at key Value.invalid s = tt
  in_map-Yields k at key (Value.bool b) s = tt
  in_map-Yields k at key (Value.number n) s = tt
  in_map-Yields k at key (Value.string t) s = tt
  in_map-Yields k at key (Value.map_value m) s = elim (Option-cases (get_entry key m)) [
    | inr (v, e) ↦ rw (e, in_map) (value-Good k v)
    | inl e ↦
        rw (e, in_map)
          (elim (Option-cases (get_entry wildcard m)) [
            | inr (v, f) ↦ rw (f, in_map) (value-Good k v)
            | inl f ↦ rw (f, in_map) tt
          ])
  ]

  select-Below :
      (r : ℕ) (es : Entries) (id : String) (wild : Option Expr)
      → BelowEntries rank r es
      → ((x : Expr) → wild ≡ some x → Below rank r x)
      → (x : Expr) → select es id wild ≡ some x
      → Below rank r x
  unfolding select BelowEntries
  select-Below r no_entries id wild b w x e = w x e
  select-Below r (entry key y es) id wild b w x e = elim (Bool-cases (is_wildcard key.kind)) [
    | inl star ↦
        select-Below r es id (some y) b.1 (λ z q. subst (Below rank r) {x = y} {y = z} (cc q) b.0) x
          (ground (arith, e, star))
    | inr fixed ↦ elim (Bool-cases ((static_key key).id == id)) [
      | inl same ↦ subst (Below rank r) {x = y} {y = x} (ground (arith, e, fixed, same)) b.0
      | inr other ↦ select-Below r es id wild b.1 w x (ground (arith, e, fixed, other))
    ]
  ]

  entry_binding-Yields :
      (k r : ℕ) (at : Span) (mx : Option Expr)
      → r < k
      → ((x : Expr) → mx ≡ some x → Below rank r x)
      → Yields (GoodBinding k) (entry_binding prim anchors phase call at u mx)
  unfolding entry_binding pure throw Yields
  entry_binding-Yields k r at none lt b s = tt
  entry_binding-Yields k r at (some x) lt b s =
      λ y v e. (cc e, (r, lt, subst (Below rank r) {x = x} {y = y} (cc e) (b x refl)))

  called-Yields :
      (k r : ℕ) (at : Span) (key : Key) (x : Expr)
      → Calls k
      → r < k
      → Below rank r x
      → Yields (GoodBinding k) (call x u >>= in_map prim anchors phase call at key)
  called-Yields k r at key x c lt b =
      then-Yields (GoodBinding k) (call x u) (in_map prim anchors phase call at key) (c r x lt b)
        (in_map-Yields k at key)

  select_in-Yields :
      (k r : ℕ) (at : Span) (key : Key) (bare x : Expr)
      → Calls k
      → r < k
      → Below rank r bare
      → Below rank r x
      → Yields (GoodBinding k) (select_in prim anchors phase call at key bare x u)
  unfolding select_in Below
  select_in-Yields k r at key (map_lit es sp) x c lt b b' =
      entry_binding-Yields k r at (select es key.id none) lt
        (select-Below r es key.id none b (λ y e. cc))
  select_in-Yields k r at key (goal_arrow p b sp) x c lt bb b' = called-Yields k r at key x c lt b'
  select_in-Yields k r at key (func_arrow p b sp) x c lt bb b' = called-Yields k r at key x c lt b'
  select_in-Yields k r at key (serial xs sp) x c lt bb b' = called-Yields k r at key x c lt b'
  select_in-Yields k r at key (parallel xs sp) x c lt bb b' = called-Yields k r at key x c lt b'
  select_in-Yields k r at key (name i h su a sp) x c lt bb b' = called-Yields k r at key x c lt b'
  select_in-Yields k r at key (anchor i ca a sp) x c lt bb b' = called-Yields k r at key x c lt b'
  select_in-Yields k r at key (policied ps t sp) x c lt bb b' = called-Yields k r at key x c lt b'
  select_in-Yields k r at key (number_lit t sp) x c lt bb b' = called-Yields k r at key x c lt b'
  select_in-Yields k r at key (string_lit ra vl e sp) x c lt bb b' =
      called-Yields k r at key x c lt b'
  select_in-Yields k r at key (bool_lit b sp) x c lt bb b' = called-Yields k r at key x c lt b'
  select_in-Yields k r at key (unary o y sp) x c lt bb b' = called-Yields k r at key x c lt b'
  select_in-Yields k r at key (binary o l y sp) x c lt bb b' = called-Yields k r at key x c lt b'
  select_in-Yields k r at key (group y sp) x c lt bb b' = called-Yields k r at key x c lt b'

  unwrap_group-Below : (r : ℕ) (x : Expr) → Below rank r x → Below rank r (unwrap_group x)
  unfolding unwrap_group Below
  unwrap_group-Below r (goal_arrow p b sp) h = h
  unwrap_group-Below r (func_arrow p b sp) h = h
  unwrap_group-Below r (serial xs sp) h = h
  unwrap_group-Below r (parallel xs sp) h = h
  unwrap_group-Below r (name i ha su a sp) h = h
  unwrap_group-Below r (anchor i ca a sp) h = h
  unwrap_group-Below r (policied ps t sp) h = h
  unwrap_group-Below r (number_lit t sp) h = h
  unwrap_group-Below r (string_lit ra vl e sp) h = h
  unwrap_group-Below r (bool_lit b sp) h = h
  unwrap_group-Below r (unary o y sp) h = h
  unwrap_group-Below r (binary o l y sp) h = h
  unwrap_group-Below r (map_lit es sp) h = h
  unwrap_group-Below r (group x sp) h = unwrap_group-Below r x h

  lookup_binding-Yields :
      (k : ℕ) (at : Span) (key : Key) (mb : Option Binding)
      → Calls k
      → Good k mb
      → Yields (GoodBinding k) (lookup_binding prim anchors phase call at key mb)
  unfolding lookup_binding throw Yields
  lookup_binding-Yields k at key none c g s = tt
  lookup_binding-Yields k at key (some (pending_on occ)) c g s = tt
  lookup_binding-Yields k at key (some (value v)) c g s =
      unfold Yields in (in_map-Yields k at key v s)
  lookup_binding-Yields k at key (some (thunk x v)) c g s =
      let (same, (r, lt, below)) = g x v refl in
      subst
        (λ w.
          Yields (GoodBinding k) (select_in prim anchors phase call at key (unwrap_group x) x w))
        (sym same)
        (select_in-Yields k r at key (unwrap_group x) x c lt (unwrap_group-Below r x below) below) s

  lookup_key-Yields :
      (k : ℕ) (at : Span) (rk : Res Key) (mb : Option Binding)
      → Calls k
      → Good k mb
      → Yields (GoodBinding k) (lookup_key prim anchors phase call at rk mb)
  unfolding lookup_key throw Yields
  lookup_key-Yields k at (err e) mb c g s = tt
  lookup_key-Yields k at (ok key) mb c g s =
      unfold Yields in (lookup_binding-Yields k at key mb c g s)

  pub lookup-Total :
      (k : ℕ) (ident : String) (at : Span) (env : Env) (key : Value)
      → Calls k
      → Good k (env_lookup env ident)
      → Total (
          lookup_entry prim anchors phase call ident at env key
          >>= entry_value prim anchors phase call at)
  unfolding lookup_entry entry_value
  lookup-Total k ident at env key c g =
      bind-Yields (GoodBinding k)
        (lookup_key prim anchors phase call at (key_of key) (env_lookup env ident))
        (entry_value prim anchors phase call at)
        (lookup_key-Yields k at (key_of key) (env_lookup env ident) c g)
        (λ b good. resolve_binding-Total k at (some b) c good)

  pub apply_unary-Total :
      (at : Span) (op : String) (v : Value) → Total (apply_unary prim anchors phase call at op v)
  unfolding apply_unary
  apply_unary-Total at op v = elim (Bool-cases (op == "!")) [
    | inl is_not ↦ rw is_not (eval_not-Total prim anchors phase at v)
    | inr other ↦ rw other (wrap_prim-Total prim anchors phase at (prim.prim_unary op v))
  ]

  pub apply_binary-Total :
      (at : Span) (op : String) (l : Value) (right : Eval S Value)
      → Total right
      → Total (apply_binary prim anchors phase call at op l right)
  unfolding apply_binary
  apply_binary-Total at op l right h = elim (Bool-cases (op == "&&" || op == "||")) [
    | inl lazy ↦ rw lazy (short_circuit-Total prim anchors phase at (op == "||") l right h)
    | inr other ↦ rw other (
        bind-Total right (λ r. wrap_prim prim anchors phase at (prim.prim_binary op l r)) h
          (λ r. wrap_prim-Total prim anchors phase at (prim.prim_binary op l r)))
  ]

  -- Every name below `k` resolves to a value, to nothing, or to a binding of a rank below `k`.
  abbrev pub Resolves : ℕ → Env → Type 0
  Resolves k env = (n : String) → rank n < k → Good k (env_lookup env n)
