-- ===== src/Base/Text.antt =====
-- Text: decimal numerals, order, and the parts of Go's `strings` package that the source calls.
use Prim.Native.Nat.{ℕ, zero, suc, ◌-◌, ◌/◌, ◌%◌, Ordering}
use Prim.Native.Char.{Char, code}
use Prim.Native.String.{String, ◌++◌}
use Prim.Native.String
use mathlib.Core.Path.{◌≡◌, refl}
use mathlib.Core.Bool.{Bool, true, false, ◌&&◌}
use mathlib.Core.List.{List, [], ◌∷◌}
use subsea_cable_runtime.Base.Tests.{if◌then◌else◌, leb, ltb}

infixr 65 ◌<>◌
-- Texts end to end.
abbrev pub ◌<>◌ : String → String → String
s <> t = s ++ t

-- The n-th character of a text, or `d` past its end.
unfoldable pub char_or : String → ℕ → Char → Char
char_or String.[] n d = d
char_or (String.◌∷◌ c s) zero d = c
char_or (String.◌∷◌ c s) (suc n) d = char_or s n d

unfoldable pub digit : ℕ → String
unfolding char_or
digit n = String.◌∷◌ (char_or "0123456789" n "0") String.[]

unfoldable pub show_loop : ℕ → ℕ → String
unfolding digit
show_loop zero n = ""
show_loop (suc f) n =
    let rest = show_loop f (n / 10) in if ltb n 10 then digit n else rest ++ digit (n % 10)

-- fmt's %d of a number that is not negative: n has at most n + 1 digits.
unfoldable pub show_ℕ : ℕ → String
unfolding show_loop
show_ℕ n = show_loop (suc n) n

-- Texts are ordered as their bytes are, and UTF-8 orders as the code points do.
abbrev pub str_ltb : String → String → Bool
str_ltb s t = elim (String.compare s t) [ Ordering.lt ↦ true | _ ↦ false ]

lower_char : Char → Char
unfolding char_or
lower_char c =
    if leb b'A' (code c) && leb (code c) b'Z'
    then char_or "abcdefghijklmnopqrstuvwxyz" (code c - b'A') c
    else c

-- strings.ToLower on the ASCII letters, the only ones of a hash qualifier.
unfoldable pub to_lower : String → String
unfolding lower_char
to_lower String.[] = String.[]
to_lower (String.◌∷◌ c s) = String.◌∷◌ (lower_char c) (to_lower s)

-- strings.Join
unfoldable pub str_join : String → List String → String
str_join sep [] = ""
str_join sep (s ∷ []) = s
str_join sep (s ∷ t ∷ ts) = s ++ (sep ++ str_join sep (t ∷ ts))

is_char : ℕ → Char → Bool
is_char k c = leb k (code c) && leb (code c) k

-- strings.Contains of one character.
unfoldable pub contains_char : ℕ → String → Bool
unfolding is_char
contains_char k String.[] = false
contains_char k (String.◌∷◌ c s) = if is_char k c then true else contains_char k s

trim_step : ℕ → Char → String → String
unfolding is_char
trim_step k c String.[] = if is_char k c then String.[] else String.◌∷◌ c String.[]
trim_step k c (String.◌∷◌ d s) = String.◌∷◌ c (String.◌∷◌ d s)

-- strings.TrimRight of one character.
unfoldable pub trim_right : ℕ → String → String
unfolding trim_step
trim_right k String.[] = String.[]
trim_right k (String.◌∷◌ c s) = trim_step k c (trim_right k s)

trim_one : ℕ → Char → String → String
unfolding is_char
trim_one k c String.[] = if is_char k c then String.[] else String.◌∷◌ c String.[]
trim_one k c (String.◌∷◌ d s) = String.◌∷◌ c (String.◌∷◌ d s)

-- strings.TrimSuffix of one character.
unfoldable pub trim_suffix : ℕ → String → String
unfolding trim_one
trim_suffix k String.[] = String.[]
trim_suffix k (String.◌∷◌ c String.[]) = trim_one k c String.[]
trim_suffix k (String.◌∷◌ c (String.◌∷◌ d s)) = String.◌∷◌ c (trim_suffix k (String.◌∷◌ d s))

-- strings.HasPrefix of one character.
unfoldable pub starts_char : ℕ → String → Bool
unfolding is_char
starts_char k String.[] = false
starts_char k (String.◌∷◌ c s) = is_char k c

-- The text without its first character.
unfoldable pub drop_char : String → String
drop_char String.[] = String.[]
drop_char (String.◌∷◌ c s) = s

text_tests :
    (show_ℕ 1204 ≡ "1204")
    × (to_lower "aBZ9" ≡ "abz9")
    × (trim_right b'0' "10.500" ≡ "10.5")
    × (trim_suffix b'.' "10." ≡ "10")
    × (contains_char b'.' "1.5" ≡ true)
unfolding show_ℕ to_lower trim_right trim_suffix contains_char
text_tests = (refl, refl, refl, refl, refl)
