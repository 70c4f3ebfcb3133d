-- ===== src/Config/Fields/Digits.antt =====
-- A port written in digits that `str.isdigit` accepts and `int` refuses.
use localcloud_cli.Prelude.{
  ℕ, ◌+◌, ◌*◌, ◌≡◌, refl, Bool, true, false, [], ◌∷◌, none, all, arith, Result, raise, value_error,
  ltb, length, if◌then◌else◌,
}
use localcloud_cli.Text.{Text, is_digits, is_decimal, digits_from, digit_value, strip}
use localcloud_cli.Text.Numbers.{parse_int}
use localcloud_cli.Value.{str}
use localcloud_cli.Config.Fields.{port}

digits_from-none : (n : ℕ) (s : Text) → all is_decimal s ≡ false → digits_from n s ≡ none
unfolding digits_from all
digits_from-none n [] h = cc
digits_from-none n (c ∷ s) h = ground (arith, digits_from-none (n * 10 + digit_value c) s)

either_way :
    (b : Bool) (r : Result ℕ)
    → r ≡ raise value_error
    → (if b then raise value_error else r) ≡ raise value_error
either_way true r h = refl
either_way false r h = h

parse_int-value_error : (s : Text) → all is_decimal s ≡ false → parse_int s ≡ raise value_error
unfolding parse_int
parse_int-value_error [] h = refl
parse_int-value_error (c ∷ s) h =
    either_way (ltb 4300 (length (c ∷ s))) _ (rw (digits_from-none 0 (c ∷ s) h) refl)

-- A port that is a text of digits, one of which is no decimal digit (a superscript, say), ends in
-- a `ValueError`, and not in a `ConfigError`.
pub port-value_error :
    (t : Text)
    → is_digits (strip t) ≡ true
    → all is_decimal (strip t) ≡ false
    → port (str t) ≡ raise value_error
unfolding port
port-value_error t digits other = rw (digits, parse_int-value_error (strip t) other) refl
