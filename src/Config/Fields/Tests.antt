-- ===== src/Config/Fields/Tests.antt =====
-- Ports at concrete texts.
use localcloud_cli.Prelude.{◌≡◌, refl, true, false, [], ◌∷◌, all, ok, raise, value_error}
use localcloud_cli.Text.{
  codes, strip, is_digits, is_digit, is_decimal, is_space, digits_from, digit_value,
}
use localcloud_cli.Text.Numbers.{parse_int}
use localcloud_cli.Value.{str}
use localcloud_cli.Config.Fields.{port}
use localcloud_cli.Config.Fields.Digits.{port-value_error}

-- What a run of the module computes through.
runs : Unit {0}
unfolding codes strip is_digits is_digit is_decimal is_space digits_from digit_value parse_int all
    port
runs = tt

port_text : port (str (codes " 05380 ")) ≡ ok 5380
unfolding runs
port_text = refl

-- The superscript two.
superscript : is_digits (strip (0xb2 ∷ [])) ≡ true
unfolding runs
superscript = refl

not_decimal : all is_decimal (strip (0xb2 ∷ [])) ≡ false
unfolding runs
not_decimal = refl

port-value_error_example : port (str (0xb2 ∷ [])) ≡ raise value_error
port-value_error_example = port-value_error (0xb2 ∷ []) superscript not_decimal
