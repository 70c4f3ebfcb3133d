-- ===== src/Text/Unicode.antt =====
-- The character tests and the case mapping of Python's `str`, from the tables of Unicode 14, which
-- Python 3.11 has. `lower` maps a capital sigma to the medial small one in every position.
use localcloud_cli.Text.Tables.{space_ranges, decimal_ranges, other_digit_ranges, lower_runs}
use localcloud_cli.Prelude.{
  ℕ, ◌+◌, ◌-◌, ◌%◌, ◌≡◌, refl, Bool, true, ◌&&◌, ◌||◌, List, [], ◌∷◌, leb, ltb, ◌=?◌, any,
  if◌then◌else◌,
}

in_range : ℕ → ℕ × ℕ → Bool
in_range c (lo, hi) = leb lo c && leb c hi

-- str.isspace of one character
unfoldable pub is_space : ℕ → Bool
unfolding in_range any
is_space c =
    if ltb c 128
    then c =? 32 || leb 9 c && leb c 13 || leb 28 c && leb c 31
    else any (in_range c) space_ranges

digit_in : List (ℕ × ℕ) → ℕ → ℕ
digit_in [] c = 0
digit_in ((lo, hi) ∷ rest) c = if leb lo c && leb c hi then (c - lo) % 10 else digit_in rest c

-- `\d` of a pattern, and a digit that `int` reads
unfoldable pub is_decimal : ℕ → Bool
unfolding in_range any
is_decimal c = if ltb c 128 then leb b'0' c && leb c b'9' else any (in_range c) decimal_ranges

-- str.isdigit of one character
unfoldable pub is_digit : ℕ → Bool
unfolding is_decimal in_range any
is_digit c = is_decimal c || any (in_range c) other_digit_ranges

unfoldable pub digit_value : ℕ → ℕ
unfolding digit_in
digit_value c = if ltb c 128 then c - b'0' else digit_in decimal_ranges c

lower_in : List (ℕ × ℕ × ℕ × ℕ × ℕ) → ℕ → ℕ
lower_in [] c = c
lower_in ((lo, hi, stride, up, down) ∷ rest) c =
    if leb lo c && leb c hi && ((c - lo) % stride =? 0) then c + up - down else lower_in rest c

-- str.lower of one character: U+0130 alone becomes two
unfoldable pub lower_char : ℕ → List ℕ
unfolding lower_in
lower_char c =
    if ltb c 128
    then (if leb b'A' c && leb c b'Z' then c + 32 else c) ∷ []
    else if c =? 304
    then 105 ∷ 775 ∷ []
    else lower_in lower_runs c ∷ []

kelvin_sign : lower_char 0x212a ≡ b'k' ∷ []
unfolding lower_char
kelvin_sign = refl

superscript_two : is_digit 178 ≡ true
unfolding is_digit
superscript_two = refl

arabic_three : digit_value 1635 ≡ 3
unfolding digit_value
arabic_three = refl
