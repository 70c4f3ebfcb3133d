-- ===== src/Text/Upper.antt =====
-- str.upper
use localcloud_cli.Prelude.{
  ℕ, ◌+◌, ◌-◌, ◌%◌, ◌≡◌, refl, ◌&&◌, List, [], ◌∷◌, ◌++◌, leb, ltb, ◌=?◌, if◌then◌else◌,
}
use localcloud_cli.Text.{Text}
use localcloud_cli.Text.Capitals.{upper_runs, upper_expansions}

upper_in : List (ℕ × ℕ × ℕ × ℕ × ℕ) → ℕ → Text
upper_in [] c = c ∷ []
upper_in ((lo, hi, stride, up, down) ∷ rest) c =
    if leb lo c && leb c hi && ((c - lo) % stride =? 0)
    then (c + up - down) ∷ []
    else upper_in rest c

expanded_in : List (ℕ × Text) → ℕ → Text
unfolding upper_in
expanded_in [] c = upper_in upper_runs c
expanded_in ((d, letters) ∷ rest) c = if d =? c then letters else expanded_in rest c

-- str.upper of one character
unfoldable pub upper_char : ℕ → Text
unfolding expanded_in
upper_char c =
    if ltb c 128
    then (if leb b'a' c && leb c b'z' then c - 32 else c) ∷ []
    else expanded_in upper_expansions c

unfoldable pub upper : Text → Text
upper [] = []
upper (c ∷ s) = upper_char c ++ upper s

sharp_s : upper_char 223 ≡ b'S' ∷ b'S' ∷ []
unfolding upper_char
sharp_s = refl

greek_omega : upper_char 969 ≡ 937 ∷ []
unfolding upper_char
greek_omega = refl
