-- ===== src/Config/Slug/Dashes.antt =====
-- What stripping dashes keeps of a text of small letters, digits and dashes.
use localcloud_cli.Prelude.{
  ℕ, suc, ◌≤◌, ◌≡◌, refl, Bool, true, false, [], ◌∷◌, all, any, arith, Bool-cases, inl, inr,
  and-eq-true, length, ◌=?◌,
}
use localcloud_cli.Text.{Text}
use localcloud_cli.Config.Fields.{is_slug_char, is_project_char, last_of}
use localcloud_cli.Config.Slug.{squash, lstrip_dash, rstrip_dash, keep_dash}

-- The last character of a text after c is a letter or a digit.
abbrev pub Ends : ℕ → Text → Type 0
Ends c s = is_slug_char (last_of c s) ≡ true

rstrip_dash-Ends-step :
    (c d : ℕ) (t : Text)
    → is_slug_char c ≡ true
    → is_project_char d ≡ true
    → Ends c t
    → Ends c (keep_dash d t)
rstrip_dash-Ends-step c d [] h k e = elim (Bool-cases (d =? b'-')) [
  | inl dash ↦ rw dash h
  | inr other ↦ rw other (ground arith)
]
rstrip_dash-Ends-step c d (x ∷ t) h k e = e

pub rstrip_dash-Ends :
    (c : ℕ) (s : Text)
    → is_slug_char c ≡ true
    → all is_project_char s ≡ true
    → Ends c (rstrip_dash s)
unfolding rstrip_dash all
rstrip_dash-Ends c [] h k = h
rstrip_dash-Ends c (d ∷ s) h k =
    let (here, later) = and-eq-true (is_project_char d) _ k in
    rstrip_dash-Ends-step c d (rstrip_dash s) h here (rstrip_dash-Ends c s h later)

keep_dash-all :
    (d : ℕ) (t : Text)
    → is_project_char d ≡ true
    → all is_project_char t ≡ true
    → all is_project_char (keep_dash d t) ≡ true
unfolding all
keep_dash-all d [] h k = elim (Bool-cases (d =? b'-')) [
  | inl dash ↦ rw dash refl
  | inr other ↦ rw (other, h) refl
]
keep_dash-all d (x ∷ t) h k = rw h k

pub rstrip_dash-all :
    (s : Text) → all is_project_char s ≡ true → all is_project_char (rstrip_dash s) ≡ true
unfolding rstrip_dash all
rstrip_dash-all [] h = refl
rstrip_dash-all (d ∷ s) h =
    let (here, later) = and-eq-true (is_project_char d) _ h in
    keep_dash-all d (rstrip_dash s) here (rstrip_dash-all s later)

keep_dash-other : (d : ℕ) (t : Text) → (d =? b'-') ≡ false → keep_dash d t ≡ d ∷ t
keep_dash-other d [] h = rw h refl
keep_dash-other d (x ∷ t) h = refl

pub rstrip_dash-other :
    (d : ℕ) (s : Text) → (d =? b'-') ≡ false → rstrip_dash (d ∷ s) ≡ d ∷ rstrip_dash s
unfolding rstrip_dash
rstrip_dash-other d s h = keep_dash-other d (rstrip_dash s) h

-- A text that ends in a letter or a digit keeps its end.
pub rstrip_dash-same : (d : ℕ) (s : Text) → Ends d s → rstrip_dash (d ∷ s) ≡ d ∷ s
unfolding rstrip_dash
rstrip_dash-same d [] h = let other : (d =? b'-') ≡ false = ground arith in rw other refl
rstrip_dash-same d (e ∷ s) h = rw (rstrip_dash-same e s h) refl

keep_dash-length : (d : ℕ) (t : Text) → length (keep_dash d t) ≤ suc (length t)
keep_dash-length d [] = elim (Bool-cases (d =? b'-')) [
  | inl dash ↦ rw dash (omega arith)
  | inr other ↦ rw other (omega arith)
]
keep_dash-length d (x ∷ t) = omega arith

pub rstrip_dash-length : (s : Text) → length (rstrip_dash s) ≤ length s
unfolding rstrip_dash
rstrip_dash-length [] = omega arith
rstrip_dash-length (d ∷ s) = omega (arith, keep_dash-length d (rstrip_dash s), rstrip_dash-length s)

pub squash-all : (b : Bool) (s : Text) → all is_project_char (squash b s) ≡ true
unfolding squash all
squash-all b [] = refl
squash-all b (c ∷ s) = elim (Bool-cases (is_slug_char c)) [
  | inl slug ↦ rw (slug, squash-all false s) (ground arith)
  | inr other ↦ elim (Bool-cases b) [
    | inl replaced ↦ rw (other, replaced) (squash-all true s)
    | inr first ↦ rw (other, first) (squash-all true s)
  ]
]

pub squash-any : (b : Bool) (s : Text) → any is_slug_char (squash b s) ≡ any is_slug_char s
unfolding squash any
squash-any b [] = refl
squash-any b (c ∷ s) = elim (Bool-cases (is_slug_char c)) [
  | inl slug ↦ rw slug (rw slug refl)
  | inr other ↦ elim (Bool-cases b) [
    | inl replaced ↦ rw (other, replaced) (squash-any true s)
    | inr first ↦ rw (other, first) (squash-any true s)
  ]
]

-- What stands first after the dashes on the left are gone.
pub lstrip_dash-first :
    (s : Text)
    → any is_slug_char s ≡ true
    → all is_project_char s ≡ true
    → (c : ℕ) × (t : Text) × (lstrip_dash s ≡ c ∷ t)
      × (is_slug_char c ≡ true)
      × (all is_project_char t ≡ true)
unfolding lstrip_dash any all
lstrip_dash-first [] h k = cc
lstrip_dash-first (d ∷ s) h k =
    let (here, later) = and-eq-true (is_project_char d) _ k in
    elim (Bool-cases (d =? b'-')) [
      | inl dash ↦
          let (c, t, e, slug, rest) = lstrip_dash-first s (ground arith) later in
          (c, t, rw dash e, slug, rest)
      | inr other ↦ (d, s, rw other refl, ground arith, later)
    ]
