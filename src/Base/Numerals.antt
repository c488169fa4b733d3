-- ===== src/Base/Numerals.antt =====
-- Decimal numerals read back as the number they were written from, so no two numbers share one.
use Prim.Native.Nat.{ℕ, zero, suc, ◌+◌, ◌*◌, ◌-◌, ◌/◌, ◌%◌, ◌<◌}
use Prim.Native.Char.{code}
use Prim.Native.String.{String, ◌++◌}
use mathlib.Core.Path.{◌≡◌, ap, sym, ◌∙◌}
use mathlib.Core.Logic.{inl, inr}
use native.Mathlib.Omega.{arith}
use text.Mathlib.TextLemmas.{cons-append, nil-append}
use subsea_cable_runtime.Base.Tests.{ltb, Bool-cases}
use subsea_cable_runtime.Base.Text.{show_ℕ, show_loop, digit, char_or}

-- The number that a numeral after the digits of `acc` stands for.
unfoldable pub read_from : ℕ → String → ℕ
read_from acc String.[] = acc
read_from acc (String.◌∷◌ c s) = read_from (acc * 10 + (code c - b'0')) s

read_from-append : (acc : ℕ) (s t : String) → read_from acc (s ++ t) ≡ read_from (read_from acc s) t
unfolding read_from
read_from-append acc String.[] t = ap (read_from acc) (nil-append t)
read_from-append acc (String.◌∷◌ c s) t =
    ap (read_from acc) (cons-append c s t) ∙ read_from-append (acc * 10 + (code c - b'0')) s t

read_from-digit : (acc n : ℕ) → n < 10 → read_from acc (digit n) ≡ acc * 10 + n
unfolding read_from digit char_or
read_from-digit acc zero h = omega arith
read_from-digit acc (suc zero) h = omega arith
read_from-digit acc (suc (suc zero)) h = omega arith
read_from-digit acc (suc (suc (suc zero))) h = omega arith
read_from-digit acc (suc (suc (suc (suc zero)))) h = omega arith
read_from-digit acc (suc (suc (suc (suc (suc zero))))) h = omega arith
read_from-digit acc (suc (suc (suc (suc (suc (suc zero)))))) h = omega arith
read_from-digit acc (suc (suc (suc (suc (suc (suc (suc zero))))))) h = omega arith
read_from-digit acc (suc (suc (suc (suc (suc (suc (suc (suc zero)))))))) h = omega arith
read_from-digit acc (suc (suc (suc (suc (suc (suc (suc (suc (suc zero))))))))) h = omega arith
read_from-digit acc (suc (suc (suc (suc (suc (suc (suc (suc (suc (suc n)))))))))) h = omega arith

read_from-show : (f n : ℕ) → n < f → read_from 0 (show_loop f n) ≡ n
unfolding show_loop
read_from-show zero n h = omega arith
read_from-show (suc f) n h = elim (Bool-cases (ltb n 10)) [
  | inl small ↦ rw small (omega (arith, read_from-digit 0 n (ground (arith, small))))
  | inr large ↦ rw large (
      read_from-append 0 (show_loop f (n / 10)) (digit (n % 10))
      ∙ omega (
        arith,
        read_from-digit (read_from 0 (show_loop f (n / 10))) (n % 10) (omega arith),
        read_from-show f (n / 10) (ground (arith, large, h)),
      ))
]

-- Different numbers have different numerals.
pub show_ℕ-inj : (m n : ℕ) → show_ℕ m ≡ show_ℕ n → m ≡ n
unfolding show_ℕ
show_ℕ-inj m n e =
    sym (read_from-show (suc m) m (omega arith))
    ∙ ap (read_from 0) e
    ∙ read_from-show (suc n) n (omega arith)
