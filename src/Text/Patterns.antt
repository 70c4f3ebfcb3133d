-- ===== src/Text/Patterns.antt =====
-- The character classes of the program's patterns, and the shape that most of them have: one class
-- for the first character, one for the others, and a bound on their number.
use localcloud_cli.Prelude.{
  ℕ, ◌≡◌, Bool, true, false, not, ◌&&◌, ◌||◌, [], ◌∷◌, leb, ◌=?◌, all, length, arith, all_mono,
}
use localcloud_cli.Text.{Text, is_space, strip}
use localcloud_cli.Text.Laws

abbrev pub is_lower_letter : ℕ → Bool
is_lower_letter c = leb b'a' c && leb c b'z'

abbrev pub is_upper_letter : ℕ → Bool
is_upper_letter c = leb b'A' c && leb c b'Z'

abbrev pub is_ascii_digit : ℕ → Bool
is_ascii_digit c = leb b'0' c && leb c b'9'

-- [A-Za-z0-9]
unfoldable pub is_alnum : ℕ → Bool
is_alnum c = is_upper_letter c || is_lower_letter c || is_ascii_digit c

-- [A-Za-z0-9_.-]
unfoldable pub is_name_char : ℕ → Bool
unfolding is_alnum
is_name_char c = is_alnum c || c =? b'_' || c =? b'.' || c =? b'-'

-- first rest{0,most}, matched against the whole text
unfoldable pub full_match : (ℕ → Bool) → (ℕ → Bool) → ℕ → Text → Bool
full_match first rest most [] = false
full_match first rest most (c ∷ s) = first c && all rest s && leb (length s) most

-- A text that a class without spaces allows is not changed by stripping it.
pub strip-full_match :
    (first rest : ℕ → Bool) (most : ℕ) (s : Text)
    → ((c : ℕ) → first c ≡ true → not (is_space c) ≡ true)
    → ((c : ℕ) → rest c ≡ true → not (is_space c) ≡ true)
    → full_match first rest most s ≡ true
    → strip s ≡ s
unfolding full_match all
strip-full_match first rest most [] f r h = cc
strip-full_match first rest most (c ∷ s) f r h =
    Laws.strip_none (c ∷ s) (ground (arith, f c, all_mono rest (λ d. not (is_space d)) s r))

pub is_name_char-not-space : (c : ℕ) → is_name_char c ≡ true → not (is_space c) ≡ true
unfolding is_name_char is_space
is_name_char-not-space c h = ground arith

pub is_alnum-is_name_char : (c : ℕ) → is_alnum c ≡ true → is_name_char c ≡ true
unfolding is_name_char
is_alnum-is_name_char c h = ground arith
