-- ===== src/Text/Lines.antt =====
-- `str.splitlines`, `str.replace` of one character, and "\n".join.
use localcloud_cli.Prelude.{
  ℕ, ◌≡◌, refl, ap, ◌∙◌, Bool, true, false, not, ◌&&◌, ◌||◌, List, [], ◌∷◌, ◌++◌, ◌=?◌, all, All,
  arith, if◌then◌else◌, if_cases,
}
use mathlib.Core.List.{append_assoc}
use localcloud_cli.Text.{Text}

-- The characters that end a line.
abbrev pub is_break : ℕ → Bool
is_break c =
    c =? 10
    || c =? 11
    || c =? 12
    || c =? 13
    || c =? 28
    || c =? 29
    || c =? 30
    || c =? 133
    || c =? 8232
    || c =? 8233

abbrev pub cons_char : ℕ → List Text → List Text
cons_char c [] = (c ∷ []) ∷ []
cons_char c (t ∷ ts) = (c ∷ t) ∷ ts

-- The flag says whether a carriage return stands before, which a line feed belongs to.
unfoldable pub lines_after : Bool → Text → List Text
lines_after cr [] = []
lines_after cr (c ∷ s) =
    let ended = lines_after (c =? 13) s in
    let rest = lines_after false s in
    if cr && c =? 10 then rest else if is_break c then [] ∷ ended else cons_char c rest

-- s.splitlines()
unfoldable pub splitlines : Text → List Text
unfolding lines_after
splitlines s = lines_after false s

-- s.replace(c, t) of one character
unfoldable pub replace : ℕ → Text → Text → Text
replace c t [] = []
replace c t (d ∷ s) = (if d =? c then t else d ∷ []) ++ replace c t s

-- separator.join(ts)
unfoldable pub join_by : Text → List Text → Text
join_by separator [] = []
join_by separator (t ∷ []) = t
join_by separator (t ∷ u ∷ ts) = t ++ (separator ++ join_by separator (u ∷ ts))

abbrev pub join_lines : List Text → Text
unfolding join_by
join_lines ts = join_by (b'\n' ∷ []) ts

pub replace-append : (c : ℕ) (t r s : Text) → replace c t (r ++ s) ≡ replace c t r ++ replace c t s
unfolding replace
replace-append c t [] s = refl
replace-append c t (d ∷ r) s = simp (replace-append c t r s, append_assoc)

-- No line feed in it.
abbrev pub IsLine : Text → Type 0
IsLine s = all (λ c. not (c =? 10)) s ≡ true

cons_char-IsLine :
    (c : ℕ) (ts : List Text) → not (c =? 10) ≡ true → All IsLine ts → All IsLine (cons_char c ts)
unfolding all
cons_char-IsLine c [] h k = (ground arith, tt)
cons_char-IsLine c (t ∷ ts) h k = (ground arith, k.1)

lines_after-IsLine : (cr : Bool) (s : Text) → All IsLine (lines_after cr s)
unfolding lines_after all
lines_after-IsLine cr [] = tt
lines_after-IsLine cr (c ∷ s) =
    if_cases (All IsLine) (cr && c =? 10) _ _ (λ e. lines_after-IsLine false s)
      λ e.
        if_cases (All IsLine) (is_break c) _ _ (λ k. (refl, lines_after-IsLine (c =? 13) s))
          λ k. cons_char-IsLine c _ (ground arith) (lines_after-IsLine false s)

pub splitlines-IsLine : (s : Text) → All IsLine (splitlines s)
unfolding splitlines
splitlines-IsLine s = lines_after-IsLine false s

-- Each of the lines with a line feed after it.
abbrev pub with_feeds : List Text → Text
with_feeds [] = []
with_feeds (t ∷ ts) = t ++ b'\n' ∷ with_feeds ts

pub join_lines-with_feeds :
    (t : Text) (ts : List Text) → join_lines (t ∷ ts) ++ b'\n' ∷ [] ≡ with_feeds (t ∷ ts)
unfolding join_by
join_lines-with_feeds t [] = refl
join_lines-with_feeds t (u ∷ ts) =
    append_assoc t (b'\n' ∷ join_lines (u ∷ ts)) (b'\n' ∷ [])
    ∙ ap (λ s. t ++ b'\n' ∷ s) (join_lines-with_feeds u ts)
