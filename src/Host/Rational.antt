-- ===== src/Host/Rational.antt =====
-- host/primitives.go: the primitive semantics "poc-rational/0" on fractions in lowest terms. Of
-- math/big's SetString, what the lexer makes of a number is modelled: digits, with a point and
-- digits after it or without; any other text is refused.
use Prim.Native.Char.{code}
use subsea_cable_runtime.Base.{
  ℕ, zero, suc, ◌+◌, ◌-◌, ◌*◌, ◌/◌, ◌%◌, ◌^◌, Bool, true, false, not, ◌&&◌, Option, none, some,
  String, ◌==◌, string_eq, nat_eq, if◌then◌else◌, ltb, leb, str_ltb, ◌<>◌,
}
use subsea_cable_runtime.Diag.{Res, ok, err, plain}
use subsea_cable_runtime.Value.{Value, canonical}
use subsea_cable_runtime.Value.Numbers.{Rat}
use subsea_cable_runtime.Expr.{Primitives}

-- Euclid's algorithm; the second number falls in each round.
gcd_loop : ℕ → ℕ → ℕ → ℕ
gcd_loop zero a b = a
gcd_loop (suc f) a b = let rest = gcd_loop f b (a % b) in if b == 0 then a else rest

-- A fraction in lowest terms; zero has no sign.
unfoldable pub reduced : Bool → ℕ → ℕ → Rat
unfolding gcd_loop
reduced neg num den =
    let g = gcd_loop (suc den) num den in
    record { neg = neg && not (num == 0); num = num / g; den = den / g }

is_digit : ℕ → Bool
is_digit c = leb b'0' c && leb c b'9'

-- The digits of a text after `acc`, and the rest from the first character that is none.
digits : ℕ → ℕ → String → ℕ × (ℕ × String)
unfolding is_digit
digits acc n String.[] = (acc, (n, String.[]))
digits acc n (String.◌∷◌ c s) =
    let rest = digits (acc * 10 + (code c - b'0')) (suc n) s in
    if is_digit (code c) then rest else (acc, (n, String.◌∷◌ c s))

-- What follows the digits before the point, of which there are `n` with the value `whole`.
after_whole : ℕ → ℕ → String → Option Rat
unfolding digits reduced
after_whole whole zero s = none
after_whole whole (suc n) String.[] = some (record { neg = false; num = whole; den = 1 })
after_whole whole (suc n) (String.◌∷◌ c s) =
    let (value, (decimals, rest)) = digits whole 0 s in
    if code c == b'.' && (rest == "" && not (decimals == 0))
    then some (reduced false value (10 ^ decimals))
    else none

unfoldable pub set_string : String → Option Rat
unfolding after_whole digits
set_string t = let (whole, (n, rest)) = digits 0 0 t in after_whole whole n rest

-- Literal
literal_of : Option Rat → Res Value
literal_of none = err plain
literal_of (some r) = ok (Value.number r)

unfoldable pub negate : Rat → Rat
negate r = record r { neg = not r.neg && not (r.num == 0) }

-- Unary
unfoldable pub unary_op : String → Value → Res Value
unfolding negate
unary_op op (Value.number r) = if op == "-" then ok (Value.number (negate r)) else err plain
unary_op op x = err plain

-- The sum of two signed naturals, as a sign and a natural.
signed_add : Bool → ℕ → Bool → ℕ → Bool × ℕ
signed_add true m true n = (true, m + n)
signed_add false m false n = (false, m + n)
signed_add p m q n = if ltb m n then (q, n - m) else (p, m - n)

unfoldable pub add_rat : Rat → Rat → Rat
unfolding signed_add reduced
add_rat a b =
    let (neg, num) = signed_add a.neg (a.num * b.den) b.neg (b.num * a.den) in
    reduced neg num (a.den * b.den)

xor : Bool → Bool → Bool
xor true q = not q
xor false q = q

unfoldable pub mul_rat : Rat → Rat → Rat
unfolding xor reduced
mul_rat a b = reduced (xor a.neg b.neg) (a.num * b.num) (a.den * b.den)

unfoldable pub quo_rat : Rat → Rat → Rat
unfolding xor reduced
quo_rat a b = reduced (xor a.neg b.neg) (a.num * b.den) (a.den * b.num)

-- The remainder of integers, which has the sign of the first.
unfoldable pub rem_rat : Rat → Rat → Rat
rem_rat a b = let m = a.num % b.num in record { neg = a.neg && not (m == 0); num = m; den = 1 }

less_signed : Bool → ℕ → Bool → ℕ → Bool
less_signed true m true n = ltb n m
less_signed true m false n = true
less_signed false m true n = false
less_signed false m false n = ltb m n

unfoldable pub less_rat : Rat → Rat → Bool
unfolding less_signed
less_rat a b = less_signed a.neg (a.num * b.den) b.neg (b.num * a.den)

text_op : String → String → String → Res Value
text_op op a b =
    if op == "<"
    then ok (Value.bool (str_ltb a b))
    else if op == "<="
    then ok (Value.bool (not (str_ltb b a)))
    else if op == ">"
    then ok (Value.bool (str_ltb b a))
    else if op == ">="
    then ok (Value.bool (not (str_ltb a b)))
    else err plain

remainder : Rat → Rat → Res Value
unfolding rem_rat
remainder a b =
    if b.num == 0
    then err plain
    else if a.den == 1 && b.den == 1
    then ok (Value.number (rem_rat a b))
    else err plain

compare_op : String → Rat → Rat → Res Value
unfolding less_rat
compare_op op a b =
    if op == "<"
    then ok (Value.bool (less_rat a b))
    else if op == "<="
    then ok (Value.bool (not (less_rat b a)))
    else if op == ">"
    then ok (Value.bool (less_rat b a))
    else if op == ">="
    then ok (Value.bool (not (less_rat a b)))
    else err plain

unfoldable pub number_op : String → Rat → Rat → Res Value
unfolding add_rat negate mul_rat quo_rat remainder compare_op
number_op op a b =
    if op == "+"
    then ok (Value.number (add_rat a b))
    else if op == "-"
    then ok (Value.number (add_rat a (negate b)))
    else if op == "*"
    then ok (Value.number (mul_rat a b))
    else if op == "/"
    then if b.num == 0 then err plain else ok (Value.number (quo_rat a b))
    else if op == "%"
    then remainder a b
    else compare_op op a b

typed_op : String → Value → Value → Res Value
unfolding text_op number_op
typed_op op (Value.string a) (Value.string b) =
    if op == "+" then ok (Value.string (a <> b)) else text_op op a b
typed_op op (Value.number a) (Value.number b) = number_op op a b
typed_op op l r = err plain

-- Binary
unfoldable pub binary_op : String → Value → Value → Res Value
unfolding typed_op canonical
binary_op op l r =
    if op == "=="
    then ok (Value.bool (canonical l == canonical r))
    else if op == "!="
    then ok (Value.bool (not (canonical l == canonical r)))
    else typed_op op l r

unfoldable pub rational_profile : Primitives
unfolding literal_of set_string unary_op binary_op
rational_profile = record {
  profile = "poc-rational/0";
  literal = λ t. literal_of (set_string t);
  prim_unary = unary_op;
  prim_binary = binary_op;
}
