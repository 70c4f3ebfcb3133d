-- ===== src/Text/Laws.antt =====
-- Equality of texts is decided by `==`, and stripping a text twice changes nothing.
use mathlib.Core.List.{Memᴰ}
use mathlib.Core.List.Memᴰ
use localcloud_cli.Prelude.{
  List, ℕ, ◌≡◌, refl, ◌↔◌, true, false, [], ◌∷◌, ◌++◌, arith, ◌=?◌, all, and-eq-true, not, sym,
  length, length-append, =?_iff, Bool-cases, inl, inr, ap,
}
use localcloud_cli.Text.{
  Text, ◌==◌, elem, is_space, lstrip, rstrip, keep_last, strip, starts_with, drop_prefix, ends_with,
  remove_suffix,
}

eq_of_== : (s t : Text) → (s == t) ≡ true → s ≡ t
unfolding ◌==◌
eq_of_== [] [] h = refl
eq_of_== [] (b ∷ t) h = cc
eq_of_== (a ∷ s) [] h = cc
eq_of_== (a ∷ s) (b ∷ t) h =
    let (p, q) = and-eq-true (a =? b) (s == t) h in cc ((=?_iff a b).0 p, eq_of_== s t q)

pub ==_refl : (s : Text) → (s == s) ≡ true
unfolding ◌==◌
==_refl [] = refl
==_refl (a ∷ s) = ground (arith, ==_refl s)

pub ==_iff : (s t : Text) → ((s == t) ≡ true) ↔ (s ≡ t)
==_iff s t = (eq_of_== s t, λ e. rw e (==_refl t))

pub ==_comm : (s t : Text) → (s == t) ≡ (t == s)
==_comm s t = ground (arith, ==_iff s t, ==_iff t s)

pub lstrip-lstrip : (s : Text) → lstrip (lstrip s) ≡ lstrip s
unfolding lstrip
lstrip-lstrip [] = refl
lstrip-lstrip (c ∷ s) = ground (arith, lstrip-lstrip s)

pub rstrip-rstrip : (s : Text) → rstrip (rstrip s) ≡ rstrip s
unfolding rstrip
rstrip-rstrip [] = refl
rstrip-rstrip (c ∷ s) = ground (arith, rstrip-rstrip s)

-- Stripping on the right leaves the first character in place, unless all are spaces.
lstrip-keep_last : (c : ℕ) (s : Text) → is_space c ≡ false → lstrip (keep_last c s) ≡ keep_last c s
unfolding lstrip
lstrip-keep_last c [] h = ground arith
lstrip-keep_last c (d ∷ s) h = ground arith

rstrip-keep_last : (c : ℕ) (s : Text) → rstrip s ≡ s → rstrip (keep_last c s) ≡ keep_last c s
unfolding rstrip
rstrip-keep_last c [] h = ground arith
rstrip-keep_last c (d ∷ s) h = ap (keep_last c) h

pub strip-strip : (s : Text) → strip (strip s) ≡ strip s
unfolding strip lstrip rstrip
strip-strip [] = refl
strip-strip (c ∷ s) = elim (Bool-cases (is_space c)) [
  | inl space ↦ rw space (strip-strip s)
  | inr other ↦
      rw (other, lstrip-keep_last c (rstrip s) other)
        (rstrip-keep_last c (rstrip s) (rstrip-rstrip s))
]

-- A text without spaces is left as it is.
strip_none-rstrip : (s : Text) → all (λ c. not (is_space c)) s ≡ true → rstrip s ≡ s
unfolding rstrip all
strip_none-rstrip [] h = refl
strip_none-rstrip (c ∷ []) h = ground arith
strip_none-rstrip (c ∷ d ∷ s) h =
    let (here, later) = and-eq-true (not (is_space c)) _ h in rw (strip_none-rstrip (d ∷ s) later)

pub strip_none : (s : Text) → all (λ c. not (is_space c)) s ≡ true → strip s ≡ s
unfolding strip lstrip all
strip_none [] h = strip_none-rstrip [] h
strip_none (c ∷ s) h =
    let (here, later) = and-eq-true (not (is_space c)) _ h in
    let other : is_space c ≡ false = ground arith in rw other (strip_none-rstrip (c ∷ s) h)

pub starts_with-append : (p s : Text) → starts_with (p ++ s) p ≡ true
unfolding starts_with
starts_with-append [] s = refl
starts_with-append (b ∷ p) s = ground (arith, starts_with-append p s)

pub append-drop_prefix : (p s : Text) → starts_with s p ≡ true → p ++ drop_prefix p s ≡ s
unfolding starts_with drop_prefix
append-drop_prefix [] s h = refl
append-drop_prefix (b ∷ p) [] h = cc
append-drop_prefix (b ∷ p) (a ∷ s) h =
    let (here, later) = and-eq-true (a =? b) _ h in
    cc ((=?_iff a b).0 here, append-drop_prefix p s later)

pub remove_suffix-append : (s p : Text) → ends_with s p ≡ true → remove_suffix s p ++ p ≡ s
unfolding ends_with remove_suffix
remove_suffix-append [] p h = sym ((==_iff [] p).0 h)
remove_suffix-append (c ∷ s) p h = elim (Bool-cases ((c ∷ s) == p)) [
  | inl same ↦ rw same (sym ((==_iff (c ∷ s) p).0 same))
  | inr more ↦ rw more (ap (◌∷◌ c) (remove_suffix-append s p (rw more at h)))
]

pub ends_with-append : (s p : Text) → ends_with (s ++ p) p ≡ true
unfolding ends_with
ends_with-append [] [] = ==_refl []
ends_with-append [] (d ∷ p) = ground (arith, ==_refl (d ∷ p))
ends_with-append (c ∷ s) p = ground (arith, ends_with-append s p)

-- A text is its own suffix at one place only.
==_longer : (c : ℕ) (s p : Text) → ((c ∷ s ++ p) == p) ≡ false
==_longer c s p = elim (Bool-cases ((c ∷ s ++ p) == p)) [
  | inl same ↦
      absurd
        (omega (arith, ap length ((==_iff (c ∷ s ++ p) p).0 same), length-append {0} (c ∷ s) p))
  | inr other ↦ other
]

pub remove_suffix_append : (s p : Text) → remove_suffix (s ++ p) p ≡ s
unfolding remove_suffix
remove_suffix_append [] [] = refl
remove_suffix_append [] (d ∷ p) = rw (==_refl (d ∷ p))
remove_suffix_append (c ∷ s) p = rw (==_longer c s p, remove_suffix_append s p)

-- A text is found in a list exactly where it is a member.
pub elem-Memᴰ : (t : Text) (ts : List Text) → Memᴰ t ts → elem t ts ≡ true
unfolding elem
elem-Memᴰ t [] m = absurd (Memᴰ.not-nil m)
elem-Memᴰ t (s ∷ ts) m = elim (Memᴰ.cases_cons m) [
  | inl same ↦ rw (sym same, ==_refl t) refl
  | inr later ↦ (let there = elem-Memᴰ t ts later in ground arith)
]

pub Memᴰ-elem : (t : Text) (ts : List Text) → elem t ts ≡ true → Memᴰ t ts
unfolding elem
Memᴰ-elem t [] h = cc
Memᴰ-elem t (s ∷ ts) h = elim (Bool-cases (t == s)) [
  | inl same ↦ Memᴰ.head ((==_iff t s).0 same)
  | inr other ↦ Memᴰ.tail (Memᴰ-elem t ts (rw other at h))
]
