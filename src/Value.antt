-- ===== src/Value.antt =====
-- value/value.go: values, their structural keys, the ordered maps, and the canonical encoding.
pub mod Numbers
pub mod Maps
pub mod Keys
use Prim.Native.String.{len, slice}
use Numbers.{Rat, rat_key}
use subsea_cable_runtime.Base.{
  ℕ, zero, suc, ◌+◌, Bool, true, false, Option, none, some, String, List, [], ◌∷◌, map, ◌==◌,
  string_eq, if◌then◌else◌, show_ℕ, ◌<>◌, sort_by, str_ltb, length,
}
use subsea_cable_runtime.Diag.{Res, ok, err, plain}

pub data Kind : Type 0 where
  k_bool k_number k_string k_map k_invalid : Kind

-- `id` is the identity, `display` is for messages.
pub record Key : Type 0 where
  pub id : String
  pub display : String

-- `invalid` is Go's zero Value. A Map lists its entries in the order of its keys: `keys` and `vals`
-- of the source are its two halves.
mutual
  pub data Value : Type 0 where
    invalid : Value
    bool : Bool → Value
    number : Rat → Value
    string : String → Value
    map_value : ValueMap → Value

  pub data ValueMap : Type 0 where
    empty : ValueMap
    entry : Key → Value → ValueMap → ValueMap

unfoldable pub kind : Value → Kind
kind invalid = k_invalid
kind (bool b) = k_bool
kind (number n) = k_number
kind (string s) = k_string
kind (map_value m) = k_map

unfoldable pub frame : String → String → String
frame tag s = tag <> (show_ℕ (len s) <> (":" <> s))

abbrev pub bool_text : Bool → String
bool_text true = "true"
bool_text false = "false"

write_pairs : List (String × String) → String
unfolding frame
write_pairs [] = ""
write_pairs ((id, text) ∷ rest) = frame "k" id <> (text <> write_pairs rest)

-- The entries in the order of their identities.
write_map : List (String × String) → String
unfolding write_pairs
write_map es =
    "(m" <> (show_ℕ (length es) <> (write_pairs (sort_by (λ p q. str_ltb p.0 q.0) es) <> ")"))

unfoldable mutual
  unfolding frame write_map

  pub canonical : Value → String
  canonical invalid = frame "?" "invalid"
  canonical (bool b) = frame "b" (bool_text b)
  canonical (number n) = frame "n" (rat_key n)
  canonical (string s) = frame "s" s
  canonical (map_value m) = write_map (canonical_entries m)

  -- Each identity with the encoding of its value.
  pub canonical_entries : ValueMap → List (String × String)
  canonical_entries empty = []
  canonical_entries (entry k v m) = (k.id, canonical v) ∷ canonical_entries m

concat : List Value → String
concat [] = ""
concat (v ∷ vs) = canonical v <> concat vs

-- value.Digest over `sha256`, the hexadecimal SHA-256 of a text.
unfoldable pub digest : (String → String) → List Value → String
unfolding concat
digest sha256 vs = slice (sha256 ("(args" <> (show_ℕ (length vs) <> (concat vs <> ")")))) zero 16

unfoldable pub string_key : String → Key
string_key s = record { id = "s:" <> s; display = s }

unfoldable pub bool_key : Bool → Key
bool_key b = record { id = "b:" <> bool_text b; display = bool_text b }

unfoldable pub number_key_text : String → Key
number_key_text t = record { id = "n:" <> t; display = t }

-- KeyOf: a map is no key.
unfoldable pub key_of : Value → Res Key
unfolding string_key bool_key number_key_text
key_of (string s) = ok (string_key s)
key_of (bool b) = ok (bool_key b)
key_of (number n) = ok (number_key_text (rat_key n))
key_of (map_value m) = err plain
key_of invalid = err plain

-- With: a key that is there keeps its place and its Key, and gets the new value.
unfoldable pub with_entry : Key → Value → ValueMap → ValueMap
with_entry k v empty = entry k v empty
with_entry k v (entry j w m) = if j.id == k.id then entry j v m else entry j w (with_entry k v m)

unfoldable pub get_entry : Key → ValueMap → Option Value
get_entry k empty = none
get_entry k (entry j w m) = if j.id == k.id then some w else get_entry k m

unfoldable pub map_len : ValueMap → ℕ
map_len empty = 0
map_len (entry j w m) = suc (map_len m)

unfoldable pub keys : ValueMap → List Key
keys empty = []
keys (entry j w m) = j ∷ keys m

-- The exported state of an occurrence.
pub data Output : Type 0 where
  no_output : Output
  output : Value → Output
