-- ===== src/Text/Numbers.antt =====
-- `str(n)` and `int(s)`.
use localcloud_cli.Prelude.{
  ℕ, zero, suc, ◌+◌, ◌/◌, ◌%◌, ◌≡◌, refl, Option, none, some, [], ◌∷◌, ltb, length, if◌then◌else◌,
  ℤ, pos, negsuc, Result, ok, raise, value_error,
}
use localcloud_cli.Text.{Text, codes, digits_from, is_decimal, digit_value}

-- The decimal digits of n in front of `rest`; n + 1 rounds are enough, since each divides by ten.
unfoldable pub digits_of : ℕ → ℕ → Text → Text
digits_of zero n rest = rest
digits_of (suc fuel) n rest =
    let digit = n % 10 + b'0' in
    let more = digits_of fuel (n / 10) (digit ∷ rest) in if ltb n 10 then digit ∷ rest else more

unfoldable pub show_int : ℤ → Text
unfolding digits_of
show_int (pos n) = digits_of (suc n) n []
show_int (negsuc n) = b'-' ∷ digits_of (suc (suc n)) (suc n) []

abbrev pub or_value_error : Option ℕ → Result ℕ
or_value_error none = raise value_error
or_value_error (some n) = ok n

-- `int(s)` of a text without sign, spaces or underscores: at most 4300 decimal digits
unfoldable pub parse_int : Text → Result ℕ
unfolding digits_from
parse_int [] = raise value_error
parse_int (c ∷ s) =
    if ltb 4300 (length (c ∷ s)) then raise value_error else or_value_error (digits_from 0 (c ∷ s))

printed : show_int (negsuc 409) ≡ codes "-410"
unfolding show_int codes
printed = refl

parsed : parse_int (codes "05380") ≡ ok 5380
unfolding parse_int codes is_decimal digit_value
parsed = refl
