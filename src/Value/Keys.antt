-- ===== src/Value/Keys.antt =====
-- Structural keys: which values have one, and which of them share one.
use Prim.Native.Char.{Char, code}
use Prim.Native.String.{◌++◌, ◌∷◌}
use text.Mathlib.TextLemmas.{cons-append, append_cancel_left, head-eq_of_cons-eq}
use subsea_cable_runtime.Base.{◌≡◌, ◌≢◌, ◌↔◌, refl, ap, sym, ◌∙◌, String, arith, true, false, Bool}
use subsea_cable_runtime.Diag.{ok}
use subsea_cable_runtime.Value.Numbers.{rat_key}
use subsea_cable_runtime.Value.{
  Value, bool, number, string, map_value, invalid, Key, key_of, string_key, number_key_text,
  bool_key, bool_text,
}

heads : (c d : Char) (x y s t : String) → (c ∷ x) ++ s ≡ (d ∷ y) ++ t → code c ≡ code d
heads c d x y s t e = ap code (head-eq_of_cons-eq (sym (cons-append c x s) ∙ e ∙ cons-append d y t))

-- The constructors of a value that may be a key, with what identifies it.
abbrev pub SameKey : Value → Value → Type 0
SameKey (string s) (string t) = s ≡ t
SameKey (number m) (number n) = rat_key m ≡ rat_key n
SameKey (bool b) (bool c) = b ≡ c
SameKey _ _ = ⊥

string-ne-number : (s t : String) → (string_key s).id ≢ (number_key_text t).id
unfolding string_key number_key_text
string-ne-number s t e = absurd (omega (arith, heads "s" "n" ":" ":" s t e))

string-ne-bool : (s : String) (b : Bool) → (string_key s).id ≢ (bool_key b).id
unfolding string_key bool_key
string-ne-bool s b e = absurd (omega (arith, heads "s" "b" ":" ":" s (bool_text b) e))

number-ne-bool : (t : String) (b : Bool) → (number_key_text t).id ≢ (bool_key b).id
unfolding number_key_text bool_key
number-ne-bool t b e = absurd (omega (arith, heads "n" "b" ":" ":" t (bool_text b) e))

string_key-inj : (s t : String) → (string_key s).id ≡ (string_key t).id → s ≡ t
unfolding string_key
string_key-inj s t e = append_cancel_left "s:" s t e

number_key-inj : (s t : String) → (number_key_text s).id ≡ (number_key_text t).id → s ≡ t
unfolding number_key_text
number_key-inj s t e = append_cancel_left "n:" s t e

bool_key-inj : (b c : Bool) → (bool_key b).id ≡ (bool_key c).id → b ≡ c
unfolding bool_key
bool_key-inj true true e = refl
bool_key-inj false false e = refl
bool_key-inj true false e =
    absurd
      (omega (arith, heads "t" "f" "rue" "alse" "" "" (append_cancel_left "b:" "true" "false" e)))
bool_key-inj false true e =
    absurd
      (omega (arith, heads "f" "t" "alse" "rue" "" "" (append_cancel_left "b:" "false" "true" e)))

-- Two values that have keys have the same key identity exactly if they are strings with the same
-- text, numbers with the same decimal text, or the same Boolean.
pub key_id-SameKey :
    (v w : Value) (k j : Key) → key_of v ≡ ok k → key_of w ≡ ok j → (k.id ≡ j.id) ↔ SameKey v w
unfolding key_of
key_id-SameKey (string s) (string t) k j p q = (λ e. string_key-inj s t (cc), λ e. cc)
key_id-SameKey (number m) (number n) k j p q =
    (λ e. number_key-inj (rat_key m) (rat_key n) (cc), λ e. cc)
key_id-SameKey (bool b) (bool c) k j p q = (λ e. bool_key-inj b c (cc), λ e. cc)
key_id-SameKey (string s) (number n) k j p q =
    (λ e. string-ne-number s (rat_key n) (cc), λ x. elim x [ ])
key_id-SameKey (string s) (bool c) k j p q = (λ e. string-ne-bool s c (cc), λ x. elim x [ ])
key_id-SameKey (number n) (string t) k j p q =
    (λ e. string-ne-number t (rat_key n) (cc), λ x. elim x [ ])
key_id-SameKey (number n) (bool c) k j p q =
    (λ e. number-ne-bool (rat_key n) c (cc), λ x. elim x [ ])
key_id-SameKey (bool b) (string t) k j p q = (λ e. string-ne-bool t b (cc), λ x. elim x [ ])
key_id-SameKey (bool b) (number n) k j p q =
    (λ e. number-ne-bool (rat_key n) b (cc), λ x. elim x [ ])
key_id-SameKey invalid w k j p q = cc
key_id-SameKey (map_value m) w k j p q = cc
key_id-SameKey v w k j p q = cc
