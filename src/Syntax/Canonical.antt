-- ===== src/Syntax/Canonical.antt =====
-- The canonical encoding of ast.go, which artifact hashes are taken of: every atom is framed by its
-- length and every node carries its number of children.
use Prim.Native.String.{len}
use subsea_cable_runtime.Base.{
  ℕ, ◌+◌, ◌*◌, ◌≡◌, refl, Bool, true, false, Option, none, some, String, List, [], ◌∷◌, ◌==◌,
  string_eq, if◌then◌else◌, length, show_ℕ, ◌<>◌,
}
use subsea_cable_runtime.Diag.{Span}
use subsea_cable_runtime.Syntax.{
  Expr, Exprs, Entries, Policies, goal_arrow, func_arrow, serial, parallel, map_lit, name, anchor,
  policied, number_lit, string_lit, bool_lit, unary, binary, group, nil, cons, no_entries, entry,
  no_policies, policy, Params, MapKey, MapKeyKind, key_ident, key_string, key_number, key_bool,
  key_wildcard, Suffix, no_suffix, bracket_suffix, call_suffix, exprs_len, entries_len,
  policies_len, is_upper, normalize_number_text,
}

unfoldable pub frame_atom : String → String → String
frame_atom tag s = tag <> (show_ℕ (len s) <> (":" <> s))

unfoldable pub frame_open : String → ℕ → String
frame_open tag n = "(" <> (tag <> show_ℕ n)

abbrev pub frame_close : String
frame_close = ")"

key_text : MapKeyKind → String → String
key_text key_ident t = "s:" <> t
key_text key_string t = "s:" <> t
key_text key_number t = "n:" <> normalize_number_text t
key_text key_bool t = "b:" <> t
key_text key_wildcard t = "_"

unfoldable pub canonical_key : MapKey → String
unfolding key_text
canonical_key k = key_text k.kind k.text

atoms : String → List String → String
unfolding frame_atom
atoms tag [] = ""
atoms tag (s ∷ ss) = frame_atom tag s <> atoms tag ss

write_params : Params → String
unfolding atoms frame_open
write_params p =
    frame_open (if p.destructure then "D" else "P") (length p.names)
    <> (atoms "i" p.names <> frame_close)

suffix_number : Suffix → ℕ
suffix_number no_suffix = 0
suffix_number bracket_suffix = 1
suffix_number call_suffix = 2

name_arity : Bool → Suffix → ℕ → String
name_arity upper no_suffix n = ""
name_arity upper _ n = if upper then show_ℕ n else ""

bool_text : Bool → String
bool_text true = "true"
bool_text false = "false"

-- Writers pass on the state of the `resolve` closure, which the source's callers keep outside.
abbrev pub Writer : Type 0 → Type 0
Writer S = S → String × S

module _ {S : Type 0} where
  abbrev pub lit : String → Writer S
  lit t s = (t, s)

  infixr 64 ◌▹◌
  abbrev pub ◌▹◌ : Writer S → Writer S → Writer S
  ◌▹◌ a b s = let (t, s') = a s in let (u, s'') = b s' in (t <> u, s'')

-- `resolve` maps a hash-qualified name, by its identifier, hash and span, to a full hash.
abbrev pub Resolve : Type 0 → Type 0
Resolve S = String → String → Span → Writer S

hash_text : {S : Type 0} → Option (Resolve S) → String → String → Span → Writer S
hash_text none ident hash sp s = (hash, s)
hash_text (some resolve) ident hash sp s = if hash == "" then (hash, s) else resolve ident hash sp s

atom_of : {S : Type 0} → String → Writer S → Writer S
unfolding frame_atom
atom_of tag w s = let (t, s') = w s in (frame_atom tag t, s')

module _ {S : Type 0} (erase : Bool) (resolve : Option (Resolve S)) where
  unfoldable mutual
    unfolding frame_atom frame_open canonical_key write_params suffix_number name_arity bool_text
        hash_text atom_of

    pub write_canon : Expr → Writer S
    write_canon (goal_arrow p body sp) =
        lit (frame_open "garrow" 2 <> write_params p) ▹ write_canon body ▹ lit frame_close
    write_canon (func_arrow p body sp) =
        lit (frame_open "farrow" (1 + exprs_len body) <> write_params p)
        ▹ write_list body
        ▹ lit frame_close
    write_canon (serial xs sp) =
        lit (frame_open "serial" (exprs_len xs)) ▹ write_list xs ▹ lit frame_close
    write_canon (parallel xs sp) =
        lit (frame_open "parallel" (exprs_len xs)) ▹ write_list xs ▹ lit frame_close
    write_canon (map_lit es sp) =
        lit (frame_open "map" (2 * entries_len es)) ▹ write_entries es ▹ lit frame_close
    write_canon (name ident hash suffix args sp) =
        lit (frame_open "name" (4 + exprs_len args) <> frame_atom "i" ident)
        ▹ atom_of "h" (hash_text resolve ident hash sp)
        ▹ lit (frame_atom "a" (name_arity (is_upper ident) suffix (exprs_len args)))
        ▹ lit (frame_atom "x" (show_ℕ (suffix_number suffix)))
        ▹ write_list args
        ▹ lit frame_close
    write_canon (anchor ident called args sp) =
        lit (frame_open "anchor" (1 + exprs_len args) <> frame_atom "i" ident)
        ▹ write_list args
        ▹ lit frame_close
    write_canon (policied ps target sp) =
        if erase
        then write_canon target
        else (lit (frame_open "policied" (1 + policies_len ps))
            ▹ write_policies ps
            ▹ write_canon target
            ▹ lit frame_close)
    write_canon (number_lit t sp) = lit (frame_atom "n" (normalize_number_text t))
    write_canon (string_lit raw v e sp) = lit (frame_atom "s" v)
    write_canon (bool_lit b sp) = lit (frame_atom "b" (bool_text b))
    write_canon (unary op x sp) =
        lit (frame_open "u" 2 <> frame_atom "o" op) ▹ write_canon x ▹ lit frame_close
    write_canon (binary op l r sp) =
        lit (frame_open "bin" 3 <> frame_atom "o" op)
        ▹ write_canon l
        ▹ write_canon r
        ▹ lit frame_close
    write_canon (group x sp) = write_canon x

    pub write_list : Exprs → Writer S
    write_list nil = lit ""
    write_list (cons x xs) = write_canon x ▹ write_list xs

    pub write_entries : Entries → Writer S
    write_entries no_entries = lit ""
    write_entries (entry k x es) =
        lit (frame_atom "k" (canonical_key k)) ▹ write_canon x ▹ write_entries es

    pub write_policies : Policies → Writer S
    write_policies no_policies = lit ""
    write_policies (policy ident args has_args sp ps) =
        lit (frame_open "policy" (1 + exprs_len args) <> frame_atom "i" ident)
        ▹ write_list args
        ▹ lit frame_close
        ▹ write_policies ps

abbrev here : Span
here = record { line = 1; col = 1 }

-- `[x] -> Fetch[x]`, with and without its policy.
canon_test :
    (write_canon {S = Unit {0}} true none
      (policied
        (policy "retry" nil false here no_policies)
        (name "Fetch" "" bracket_suffix (cons (name "x" "" no_suffix nil here) nil) here)
        here)
      tt).0
    ≡ "(name5i5:Fetchh0:a1:1x1:1(name4i1:xh0:a0:x1:0))"
unfolding write_canon show_ℕ exprs_len is_upper
canon_test = refl
