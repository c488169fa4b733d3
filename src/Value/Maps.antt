-- ===== src/Value/Maps.antt =====
-- Laws of the ordered maps of value.go.
use subsea_cable_runtime.Base.{
  ◌≡◌, refl, some, [], ◌∷◌, ◌++◌, ◌==◌, string_eq, if◌then◌else◌, arith, is_some,
}
use subsea_cable_runtime.Value.{Value, ValueMap, empty, entry, Key, with_entry, get_entry, keys}

-- After Map.With, Map.Get of any key reads the new value where the identities agree, and
-- otherwise what the map held.
pub get_entry-with_entry :
    (k j : Key) (v : Value) (m : ValueMap)
    → get_entry j (with_entry k v m) ≡ (if k.id == j.id then some v else get_entry j m)
unfolding get_entry with_entry
get_entry-with_entry k j v empty = refl
get_entry-with_entry k j v (entry i w m) = ground (
  arith,
  string_eq.beq_iff k.id j.id,
  string_eq.beq_iff i.id k.id,
  string_eq.beq_iff i.id j.id,
  get_entry-with_entry k j v m,
)

-- Map.With keeps the order of the keys: a key that is there stays where it is, and any other goes
-- to the end.
pub keys-with_entry :
    (k : Key) (v : Value) (m : ValueMap)
    → keys (with_entry k v m) ≡ (if is_some (get_entry k m) then keys m else keys m ++ k ∷ [])
unfolding keys with_entry get_entry
keys-with_entry k v empty = refl
keys-with_entry k v (entry i w m) = ground (arith, keys-with_entry k v m)
