-- ===== src/Syntax.antt =====
-- syntax/ast.go: the syntax tree, the casing law, and the number text rule. The canonical encoding
-- is in Syntax/Canonical.
pub mod Canonical
use Prim.Native.Char.{code}
use Prim.Native.String.{len}
use Prim.Native.String
use subsea_cable_runtime.Base.{
  ℕ, zero, suc, ◌+◌, Bool, true, false, ◌&&◌, ◌||◌, String, List, [], ◌∷◌, ◌==◌, string_eq, nat_eq,
  if◌then◌else◌, leb, length, ◌<>◌, contains_char, trim_right, trim_suffix, starts_char, drop_char,
}
use subsea_cable_runtime.Diag.{Span}

pub record Params : Type 0 where
  pub names : List String
  pub destructure : Bool
  pub span : Span

-- Params.Arity
unfoldable pub arity : Params → ℕ
arity p = if p.destructure then 1 else length p.names

pub data Suffix : Type 0 where
  no_suffix bracket_suffix call_suffix : Suffix

pub data MapKeyKind : Type 0 where
  key_ident key_string key_number key_bool key_wildcard : MapKeyKind

pub record MapKey : Type 0 where
  pub kind : MapKeyKind
  pub text : String
  pub span : Span

-- The node types of `Expr`, with the lists of expressions, map entries and policies they hold.
-- A node's span also stands for its identity as a Go pointer: the parser makes every name node
-- from a token of its own.
mutual
  pub data Expr : Type 0 where
    goal_arrow : Params → Expr → Span → Expr
    func_arrow : Params → Exprs → Span → Expr
    serial : Exprs → Span → Expr
    parallel : Exprs → Span → Expr
    map_lit : Entries → Span → Expr
    name : String → String → Suffix → Exprs → Span → Expr
    anchor : String → Bool → Exprs → Span → Expr
    policied : Policies → Expr → Span → Expr
    number_lit : String → Span → Expr
    string_lit : String → String → String → Span → Expr
    bool_lit : Bool → Span → Expr
    unary : String → Expr → Span → Expr
    binary : String → Expr → Expr → Span → Expr
    group : Expr → Span → Expr

  pub data Exprs : Type 0 where
    nil : Exprs
    cons : Expr → Exprs → Exprs

  pub data Entries : Type 0 where
    no_entries : Entries
    entry : MapKey → Expr → Entries → Entries

  pub data Policies : Type 0 where
    no_policies : Policies
    policy : String → Exprs → Bool → Span → Policies → Policies

unfoldable pub pos : Expr → Span
pos (goal_arrow p b sp) = sp
pos (func_arrow p b sp) = sp
pos (serial xs sp) = sp
pos (parallel xs sp) = sp
pos (map_lit es sp) = sp
pos (name i h s a sp) = sp
pos (anchor i c a sp) = sp
pos (policied ps t sp) = sp
pos (number_lit t sp) = sp
pos (string_lit r v e sp) = sp
pos (bool_lit b sp) = sp
pos (unary o x sp) = sp
pos (binary o l r sp) = sp
pos (group x sp) = sp

unfoldable pub exprs_len : Exprs → ℕ
exprs_len nil = 0
exprs_len (cons x xs) = suc (exprs_len xs)

unfoldable pub entries_len : Entries → ℕ
entries_len no_entries = 0
entries_len (entry k x es) = suc (entries_len es)

unfoldable pub policies_len : Policies → ℕ
policies_len no_policies = 0
policies_len (policy i a h sp ps) = suc (policies_len ps)

in_range : ℕ → ℕ → ℕ → Bool
in_range lo hi c = leb lo c && leb c hi

-- IsUpper: the letter that decides, with whether there is one.
unfoldable pub upper_ok : String → Bool × Bool
unfolding in_range
upper_ok String.[] = (false, false)
upper_ok (String.◌∷◌ c s) =
    let rest = upper_ok s in
    if code c == b'_'
    then rest
    else if in_range b'A' b'Z' (code c)
    then (true, true)
    else if in_range b'a' b'z' (code c)
    then (false, true)
    else (false, false)

-- The first result of IsUpper, which is what most callers read.
unfoldable pub is_upper : String → Bool
unfolding upper_ok
is_upper s = (upper_ok s).0

-- NormalizeNumberText after the sign is off.
unsigned_text : String → String
unsigned_text t = if contains_char b'.' t then trim_suffix b'.' (trim_right b'0' t) else t

unfoldable pub normalize_number_text : String → String
unfolding unsigned_text
normalize_number_text t =
    let neg = starts_char b'-' t in
    let u = unsigned_text (if neg then drop_char t else t) in
    if u == "0" || u == "" then "0" else if neg then "-" <> u else u
