-- ===== src/Text.antt =====
-- Python's `str` as the list of its code points, with the methods that the program calls.
mod Tables
mod Capitals
mod Unicode
pub mod Laws
pub mod Order
pub mod Patterns
pub mod Numbers
pub mod Upper
pub mod Lines
unfoldable pub use Unicode.{is_space, is_decimal, is_digit, digit_value, lower_char}
use Prim.Native.Char.{code}
use localcloud_cli.Prelude.{
  ℕ, ◌+◌, ◌*◌, ◌≡◌, refl, String, Bool, true, false, not, ◌&&◌, ◌||◌, List, [], ◌∷◌, ◌++◌, Option,
  none, some, ltb, leb, ◌=?◌, all, if◌then◌else◌,
}

abbrev pub Text : Type 0
Text = List ℕ

-- A literal.
unfoldable pub codes : String → Text
codes String.[] = []
codes (String.◌∷◌ c s) = code c ∷ codes s

infix 50 ◌==◌
unfoldable pub ◌==◌ : Text → Text → Bool
[] == [] = true
[] == (b ∷ t) = false
(a ∷ s) == [] = false
(a ∷ s) == (b ∷ t) = a =? b && s == t

-- `not s`
abbrev pub is_empty : Text → Bool
is_empty [] = true
is_empty (c ∷ s) = false

-- `value or ""`
abbrev pub or_blank : Option Text → Text
or_blank none = []
or_blank (some t) = t

-- `s in set` at a set of texts
unfoldable pub elem : Text → List Text → Bool
elem s [] = false
elem s (t ∷ ts) = s == t || elem s ts

unfoldable pub lstrip : Text → Text
lstrip [] = []
lstrip (c ∷ s) = if is_space c then lstrip s else c ∷ s

abbrev pub keep_last : ℕ → Text → Text
keep_last c [] = if is_space c then [] else c ∷ []
keep_last c (d ∷ s) = c ∷ d ∷ s

unfoldable pub rstrip : Text → Text
rstrip [] = []
rstrip (c ∷ s) = keep_last c (rstrip s)

-- s.strip()
unfoldable pub strip : Text → Text
unfolding lstrip rstrip
strip s = rstrip (lstrip s)

-- s.lower()
unfoldable pub lower : Text → Text
lower [] = []
lower (c ∷ s) = lower_char c ++ lower s

-- s.startswith(p)
unfoldable pub starts_with : Text → Text → Bool
starts_with s [] = true
starts_with [] (b ∷ p) = false
starts_with (a ∷ s) (b ∷ p) = a =? b && starts_with s p

-- s.removeprefix(p), where s starts with p; s otherwise
unfoldable pub drop_prefix : Text → Text → Text
drop_prefix [] s = s
drop_prefix (b ∷ p) [] = []
drop_prefix (b ∷ p) (a ∷ s) = drop_prefix p s

unfoldable pub remove_prefix : Text → Text → Text
unfolding starts_with drop_prefix
remove_prefix s p = if starts_with s p then drop_prefix p s else s

-- s.endswith(p)
unfoldable pub ends_with : Text → Text → Bool
ends_with [] p = [] == p
ends_with (c ∷ s) p = (c ∷ s) == p || ends_with s p

-- s.removesuffix(p)
unfoldable pub remove_suffix : Text → Text → Text
remove_suffix [] p = []
remove_suffix (c ∷ s) p = if (c ∷ s) == p then [] else c ∷ remove_suffix s p

-- c in s, at one character
unfoldable pub has_char : ℕ → Text → Bool
has_char c [] = false
has_char c (d ∷ s) = d =? c || has_char c s

-- s.isdigit()
unfoldable pub is_digits : Text → Bool
unfolding all
is_digits s = not (is_empty s) && all is_digit s

-- `int(s)` on decimal digits: `none` where some character is no decimal digit
unfoldable pub digits_from : ℕ → Text → Option ℕ
digits_from n [] = some n
digits_from n (c ∷ s) =
    let rest = digits_from (n * 10 + digit_value c) s in if is_decimal c then rest else none

-- s.partition(c): what stands before the first c, whether there is one, and what follows it
abbrev pub before_more : ℕ → Text × Bool × Text → Text × Bool × Text
before_more d (before, found, after) = (d ∷ before, found, after)

unfoldable pub partition : ℕ → Text → Text × Bool × Text
partition c [] = ([], false, [])
partition c (d ∷ s) = if d =? c then ([], true, s) else before_more d (partition c s)
