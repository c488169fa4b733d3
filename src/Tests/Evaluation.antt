-- ===== src/Tests/Evaluation.antt =====
-- Values, keys and maps, and the evaluation of a unit's bindings.
use subsea_cable_runtime.Base.{
  ℕ, ◌≡◌, ◌↔◌, refl, true, false, some, none, [], ◌∷◌, ◌++◌, String, get, is_some, if◌then◌else◌,
  ◌==◌, string_eq, arith, Bool-cases, inl, inr, sym, ◌∙◌, subst,
}
use subsea_cable_runtime.Diag.{deduction}
use subsea_cable_runtime.Value.{
  Value, ValueMap, Key, string_key, bool_key, key_of, with_entry, get_entry, keys, empty,
}
use subsea_cable_runtime.Value
use subsea_cable_runtime.Value.Keys.{SameKey, key_id-SameKey}
use subsea_cable_runtime.Value.Maps.{get_entry-with_entry, keys-with_entry}
use subsea_cable_runtime.Syntax.{Expr, name, nil, no_suffix, number_lit}
use subsea_cable_runtime.Expr.{eval, unit, env_lookup, thunk}
use subsea_cable_runtime.Expr.Total.{IsRanked, Below}
use subsea_cable_runtime.Expr.Answers.{eval_total}
use subsea_cable_runtime.Tests.Data.{host, source, here}

abbrev one_entry : ValueMap
one_entry = Value.entry (string_key "a") (Value.bool true) empty

get_entry-with_entry_example :
    get_entry (string_key "a") (with_entry (string_key "b") (Value.bool false) one_entry) ≡ (
      if (string_key "b").id == (string_key "a").id
      then some (Value.bool false)
      else get_entry (string_key "a") one_entry)
get_entry-with_entry_example =
    get_entry-with_entry (string_key "b") (string_key "a") (Value.bool false) one_entry

keys-with_entry_example : keys (with_entry (string_key "b") (Value.bool false) one_entry) ≡ (
    if is_some (get_entry (string_key "b") one_entry)
    then keys one_entry
    else keys one_entry ++ string_key "b" ∷ [])
keys-with_entry_example = keys-with_entry (string_key "b") (Value.bool false) one_entry

key_id-SameKey_example :
    ((string_key "true").id ≡ (bool_key true).id) ↔ SameKey (Value.string "true") (Value.bool true)
unfolding key_of
key_id-SameKey_example =
    key_id-SameKey (Value.string "true") (Value.bool true) (string_key "true") (bool_key true) refl
      refl

-- `x` is bound to `y`, and `y` to a literal.
ranks : String → ℕ
ranks n = if n == "x" then 1 else 0

-- `x` with an environment that is the unit.
abbrev use_x : Expr
use_x = name "x" "" no_suffix nil here

source-IsRanked : IsRanked ranks source.values (unit source.values)
unfolding IsRanked env_lookup get Below ranks
source-IsRanked n x v e = elim (Bool-cases ("x" == n)) [
  | inl at_x ↦
      let q : some (thunk x v) ≡ some (thunk (name "y" "" no_suffix nil here) source.values) =
        sym e ∙ ground (arith, at_x) in
      (
        cc q,
        subst (Below ranks (ranks n)) {x = name "y" "" no_suffix nil here} {y = x} (cc q)
            (ground (arith, (string_eq.beq_iff "x" n).0 at_x), tt),
      )
  | inr not_x ↦ elim (Bool-cases ("y" == n)) [
    | inl at_y ↦
        let q : some (thunk x v) ≡ some (thunk (number_lit "1" here) source.values) =
          sym e ∙ ground (arith, at_y, not_x) in
        (cc q, subst (Below ranks (ranks n)) {x = number_lit "1" here} {y = x} (cc q) tt)
    | inr other ↦ absurd (ground (arith, e, not_x, other))
  ]
]

eval_total_example : is_some (eval host none deduction 2 use_x (unit source.values) tt) ≡ true
unfolding Below ranks
eval_total_example =
    eval_total {S = Unit} host none deduction ranks source.values 2 use_x (unit source.values) tt
      source-IsRanked source-IsRanked (omega arith, tt)
