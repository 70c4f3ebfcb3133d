-- ===== src/Config/Slug/Valid.antt =====
-- The project that a name makes.
use localcloud_cli.Prelude.{
  ℕ, zero, suc, ◌≤◌, ◌≡◌, refl, ap, ◌∙◌, true, false, [], ◌∷◌, ◌++◌, some, all, any, arith,
  Bool-cases, inl, inr, length, take, ltb, ◌=?◌, all-take,
}
use localcloud_cli.Text.{Text, codes, strip, lower, is_empty, starts_with}
use localcloud_cli.Text.Patterns.{is_lower_letter}
use localcloud_cli.Config.Fields.{is_slug_char, is_project_char, last_of, project_id_pattern}
use localcloud_cli.Config.Slug.{
  squash, rstrip_dash, cleaned_name, starts_alpha, proj, shortened, pad, lengthened, with_letter,
  project_of, slugify_project_name,
}
use localcloud_cli.Config.Slug.Dashes.{
  Ends, rstrip_dash-Ends, rstrip_dash-all, rstrip_dash-other, rstrip_dash-same, rstrip_dash-length,
  squash-all, squash-any, lstrip_dash-first,
}

-- A small letter, and then letters, digits and dashes that end in no dash.
pub record IsDraft (c : ℕ) (s : Text) : Type 0 where
  pub letter : is_lower_letter c ≡ true
  pub chars : all is_project_char s ≡ true
  pub ends : Ends c s

letter-slug : (c : ℕ) → is_lower_letter c ≡ true → is_slug_char c ≡ true
letter-slug c h = ground arith

letter-project : (c : ℕ) → is_lower_letter c ≡ true → is_project_char c ≡ true
letter-project c h = ground arith

letter-other : (c : ℕ) → is_lower_letter c ≡ true → (c =? b'-') ≡ false
letter-other c h = ground arith

length-take : (n : ℕ) (s : Text) → length (take n s) ≤ n
length-take zero s = omega arith
length-take (suc n) [] = omega arith
length-take (suc n) (c ∷ s) = omega (arith, length-take n s)

take_all : (n : ℕ) (s : Text) → length s ≤ n → take n s ≡ s
take_all zero [] h = refl
take_all zero (c ∷ s) h = absurd (omega arith)
take_all (suc n) [] h = refl
take_all (suc n) (c ∷ s) h = ap (◌∷◌ c) (take_all n s (omega arith))

-- Cutting a draft to 30 characters leaves a draft.
shortened-IsDraft :
    (c : ℕ) (s : Text)
    → IsDraft c s
    → (t : Text) × (shortened (c ∷ s) ≡ c ∷ t) × IsDraft c t × (length t ≤ 29)
unfolding shortened
shortened-IsDraft c s h =
    let cut = all-take is_project_char 29 s h.chars in
    (
      rstrip_dash (take 29 s),
      rstrip_dash-other c (take 29 s) (letter-other c h.letter),
      record {
        letter = h.letter;
        chars = rstrip_dash-all (take 29 s) cut;
        ends = rstrip_dash-Ends c (take 29 s) (letter-slug c h.letter) cut;
      },
      omega (arith, rstrip_dash-length (take 29 s), length-take 29 s),
    )

-- A short draft is left as it is.
shortened-same : (c : ℕ) (s : Text) → IsDraft c s → length s ≤ 29 → shortened (c ∷ s) ≡ c ∷ s
unfolding shortened
shortened-same c s h short = rw (take_all 29 s short) (rstrip_dash-same c s h.ends)

last_of-append : (b c : ℕ) (p s : Text) → last_of b (p ++ c ∷ s) ≡ last_of c s
last_of-append b c [] s = refl
last_of-append b c (d ∷ p) s = last_of-append d c p s

-- "proj-" in front of letters, digits and dashes.
proj-IsDraft :
    (c : ℕ) (s : Text)
    → is_project_char c ≡ true
    → all is_project_char s ≡ true
    → Ends c s
    → IsDraft b'p' (codes "roj-" ++ c ∷ s)
unfolding codes all
proj-IsDraft c s h k e = record { letter = refl; chars = rw (h, k) refl; ends = e }

draft-pattern :
    (c : ℕ) (s : Text)
    → IsDraft c s
    → 5 ≤ length s
    → length s ≤ 29
    → project_id_pattern (c ∷ s) ≡ true
unfolding project_id_pattern
draft-pattern c s h long short =
    let letter = h.letter in let chars = h.chars in let ends = h.ends in ground arith

-- A draft that starts with "proj-" has six characters.
proj-length : (c : ℕ) (s : Text) → IsDraft c s → starts_with (c ∷ s) proj ≡ true → 5 ≤ length s
unfolding starts_with codes
proj-length c [] h k = ground arith
proj-length c (d ∷ []) h k = ground arith
proj-length c (d ∷ e ∷ []) h k = ground arith
proj-length c (d ∷ e ∷ f ∷ []) h k = ground arith
proj-length c (d ∷ e ∷ f ∷ g ∷ []) h k = ground arith
proj-length c (d ∷ e ∷ f ∷ g ∷ i ∷ s) h k = omega arith

abbrev IsValid : Text → Type 0
IsValid s = project_id_pattern s ≡ true

pad-long : (fuel : ℕ) (s : Text) → 6 ≤ length s → pad fuel s ≡ s
unfolding pad
pad-long zero s h = refl
pad-long (suc fuel) s h = let long : ltb (length s) 6 ≡ false = ground arith in rw long refl

-- Both branches of the lengthening of a draft.
lengthened-IsValid : (c : ℕ) (s : Text) → IsDraft c s → length s ≤ 29 → IsValid (lengthened (c ∷ s))
unfolding lengthened codes
lengthened-IsValid c s h short = elim (Bool-cases (ltb (length (c ∷ s)) 6)) [
  | inr long ↦ rw long (draft-pattern c s h (ground arith) short)
  | inl few ↦ elim (Bool-cases (starts_with (c ∷ s) proj)) [
    | inl begun ↦ absurd (ground (arith, proj-length c s h begun))
    | inr plain ↦
        let draft = proj-IsDraft c s (letter-project c h.letter) h.chars h.ends in
        let bound : length (codes "roj-" ++ c ∷ s) ≤ 29 = ground arith in
        rw
          (
            few,
            plain,
            pad-long 6 (proj ++ c ∷ s) (omega arith),
            shortened-same b'p' (codes "roj-" ++ c ∷ s) draft bound,
          )
          (draft-pattern b'p' (codes "roj-" ++ c ∷ s) draft (omega arith) bound)
  ]
]

with_letter-IsDraft :
    (c : ℕ) (s : Text)
    → is_slug_char c ≡ true
    → all is_project_char s ≡ true
    → Ends c s
    → (d : ℕ) × (t : Text) × (with_letter (c ∷ s) ≡ d ∷ t) × IsDraft d t
unfolding codes
with_letter-IsDraft c s slug chars ends = elim (Bool-cases (starts_alpha (c ∷ s))) [
  | inl alpha ↦ (c, s, rw alpha refl, record { letter = ground arith; chars = chars; ends = ends })
  | inr digit ↦
      (b'p', codes "roj-" ++ c ∷ s, rw digit refl, proj-IsDraft c s (ground arith) chars ends)
]

project_of-IsValid :
    (c : ℕ) (s : Text)
    → is_slug_char c ≡ true
    → all is_project_char s ≡ true
    → Ends c s
    → (p : Text) × (project_of (c ∷ s) ≡ some p) × IsValid p
unfolding project_of
project_of-IsValid c s slug chars ends =
    let (d, t, e, draft) = with_letter-IsDraft c s slug chars ends in
    let (u, f, cut, short) = shortened-IsDraft d t draft in
    let valid = lengthened-IsValid d u cut short in
    (lengthened (d ∷ u), rw (e, f, valid) refl, valid)

cleaned_name-first :
    (s : Text)
    → any is_slug_char s ≡ true
    → (c : ℕ) × (t : Text) × (cleaned_name s ≡ c ∷ t)
      × (is_slug_char c ≡ true)
      × (all is_project_char t ≡ true)
      × Ends c t
unfolding cleaned_name
cleaned_name-first s h =
    let (c, t, e, slug, chars) =
      lstrip_dash-first (squash false s) (squash-any false s ∙ h) (squash-all false s) in
    (
      c,
      rstrip_dash t,
      ap rstrip_dash e ∙ rstrip_dash-other c t (ground arith),
      slug,
      rstrip_dash-all t chars,
      rstrip_dash-Ends c t slug chars,
    )

-- A name that is not empty and whose lowered ASCII form has a letter or a digit makes a project, and
-- that project matches the pattern, whatever the name and however short or long: the check of the
-- pattern at the end never fails.
pub slugify_project_name-valid :
    (to_ascii : Text → Text) (name : Text)
    → is_empty name ≡ false
    → any is_slug_char (lower (strip (to_ascii name))) ≡ true
    → (p : Text) × (slugify_project_name to_ascii name ≡ some p) × (project_id_pattern p ≡ true)
unfolding slugify_project_name
slugify_project_name-valid to_ascii name filled some_char =
    let (c, t, e, slug, chars, ends) =
      cleaned_name-first (lower (strip (to_ascii name))) some_char in
    let (p, f, valid) = project_of-IsValid c t slug chars ends in (p, rw (filled, e) f, valid)
