-- ===== src/Value/Numbers.antt =====
-- The rational numbers of value.go, as math/big keeps them: a sign, a numerator and a denominator
-- in lowest terms; and RatKey, their decimal text.
use Prim.Native.String.{count}
use subsea_cable_runtime.Base.{
  ℕ, zero, suc, ◌+◌, ◌-◌, ◌*◌, ◌/◌, ◌%◌, ◌^◌, ◌≡◌, refl, Bool, true, false, String, ◌==◌, nat_eq,
  if◌then◌else◌, show_ℕ, ◌<>◌, ltb, trim_right, contains_char,
}

pub record Rat : Type 0 where
  pub neg : Bool
  pub num : ℕ
  pub den : ℕ

-- The loops that divide `den` by `p` while they can: what is left, and how often it went.
-- The fuel is `den`, which falls by a factor of two at least.
unfoldable pub strip : ℕ → ℕ → ℕ → ℕ → ℕ × ℕ
strip p zero den count = (den, count)
strip p (suc f) den count =
    let rest = strip p f (den / p) (count + 1) in if den % p == 0 then rest else (den, count)

sign_text : Bool → String
sign_text true = "-"
sign_text false = ""

zeros : ℕ → String
zeros zero = ""
zeros (suc n) = "0" <> zeros n

pad_left : ℕ → String → String
unfolding zeros
pad_left n s = zeros (n - count s) <> s

-- big.Rat.FloatString where `digits` decimals are exact.
float_string : Rat → ℕ → String
unfolding sign_text pad_left
float_string r digits =
    let scaled = r.num * 10 ^ digits / r.den in
    let whole = sign_text r.neg <> show_ℕ (scaled / 10 ^ digits) in
    if digits == 0 then whole else whole <> ("." <> pad_left digits (show_ℕ (scaled % 10 ^ digits)))

trim_zeros : String → String
trim_zeros s = if contains_char b'.' s then trim_right b'.' (trim_right b'0' s) else s

-- RatKey
unfoldable pub rat_key : Rat → String
unfolding strip float_string trim_zeros
rat_key r =
    if r.num == 0
    then "0"
    else (let (d, twos) = strip 2 r.den r.den 0 in
        let (rest, fives) = strip 5 d d 0 in
        let digits = if ltb twos fives then fives else twos in
        if rest == 1
        then trim_zeros (float_string r digits)
        else sign_text r.neg <> (show_ℕ r.num <> ("/" <> show_ℕ r.den)))

rat_key_tests :
    (rat_key (record { neg = false; num = 3; den = 2 }) ≡ "1.5")
    × (rat_key (record { neg = true; num = 1; den = 40 }) ≡ "-0.025")
    × (rat_key (record { neg = true; num = 2; den = 3 }) ≡ "-2/3")
    × (rat_key (record { neg = false; num = 100; den = 1 }) ≡ "100")
unfolding rat_key show_ℕ contains_char trim_right
rat_key_tests = (refl, refl, refl, refl)
