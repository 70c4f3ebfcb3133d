-- ===== src/State/Naming.antt =====
-- What the field checks of state.py accept, and that a default name is always one that Docker takes.
use localcloud_cli.Prelude.{
  ◌≡◌, refl, Bool, true, ◌&&◌, [], ◌∷◌, ◌++◌, all, all-append, all-take, all_mono, take, length,
  length-append, arith, ok, leb, ℕ, suc, zero, ◌≤◌, ◌+◌, ◌||◌,
}
use localcloud_cli.Text.{Text, codes, strip}
use localcloud_cli.Text.Patterns.{
  is_alnum, is_name_char, is_name_char-not-space, is_alnum-is_name_char, full_match,
  strip-full_match, is_ascii_digit,
}
use localcloud_cli.Value.{Value, null, str}
use localcloud_cli.State.{
  data_volume_pattern, docker_name_pattern, validate_data_volume, default_data_volume,
  hashed_resource_name, base_name, default_resource_names,
}

pub strip-data_volume : (t : Text) → data_volume_pattern t ≡ true → strip t ≡ t
unfolding data_volume_pattern
strip-data_volume t h =
    strip-full_match is_alnum is_name_char 254 t
      (λ c k. is_name_char-not-space c (is_alnum-is_name_char c k)) is_name_char-not-space h

pub strip-docker_name : (t : Text) → docker_name_pattern t ≡ true → strip t ≡ t
unfolding docker_name_pattern
strip-docker_name t h =
    strip-full_match is_alnum is_name_char 127 t
      (λ c k. is_name_char-not-space c (is_alnum-is_name_char c k)) is_name_char-not-space h

-- A valid name is its own validated form.
pub validate_data_volume-valid :
    (t : Text) → data_volume_pattern t ≡ true → validate_data_volume (str t) ≡ ok t
unfolding validate_data_volume
validate_data_volume-valid t h = rw (strip-data_volume t h, h)

default-pattern : data_volume_pattern default_data_volume ≡ true
unfolding data_volume_pattern codes all
default-pattern = refl

pub validate_data_volume-pattern :
    (v : Value) (t : Text) → validate_data_volume v ≡ ok t → data_volume_pattern t ≡ true
unfolding validate_data_volume
validate_data_volume-pattern null t h =
    let e : default_data_volume ≡ t = cc in rw (← e) default-pattern
validate_data_volume-pattern (str s) t h = ground arith
validate_data_volume-pattern _ t h = cc

-- [0-9a-f]
abbrev pub is_hex : ℕ → Bool
is_hex c = is_ascii_digit c || leb b'a' c && leb c b'f'

is_hex-is_name_char : (c : ℕ) → is_hex c ≡ true → is_name_char c ≡ true
unfolding is_name_char
is_hex-is_name_char c h = ground arith

length-take : (n : ℕ) (s : Text) → length (take n s) ≤ n
length-take zero s = omega arith
length-take (suc n) [] = omega arith
length-take (suc n) (c ∷ s) = omega (arith, length-take n s)

-- A short text of name characters after a fixed start is a Docker name.
full_match-append :
    (c : ℕ) (p s : Text) (most : ℕ)
    → full_match is_alnum is_name_char most (c ∷ p) ≡ true
    → all is_name_char s ≡ true
    → length p + length s ≤ most
    → full_match is_alnum is_name_char most (c ∷ p ++ s) ≡ true
unfolding full_match
full_match-append c p s most h k short =
    ground (arith, all-append is_name_char p s, length-append {0} p s)

volume-prefix : full_match is_alnum is_name_char 127 (codes "localcloud-volume-") ≡ true
unfolding full_match codes all is_alnum is_name_char
volume-prefix = refl

localcloud-pattern : docker_name_pattern (codes "localcloud") ≡ true
unfolding docker_name_pattern codes all
localcloud-pattern = refl

module _ (hexdigest : Text → Text) (hex : (t : Text) → all is_hex (hexdigest t) ≡ true) where
  hashed_resource_name-pattern :
      (t : Text) → docker_name_pattern (hashed_resource_name hexdigest t) ≡ true
  unfolding docker_name_pattern hashed_resource_name codes
  hashed_resource_name-pattern t =
      full_match-append b'l' _ (take 12 (hexdigest t)) 127 volume-prefix
        (all_mono is_hex is_name_char (take 12 (hexdigest t)) is_hex-is_name_char
          (all-take is_hex 12 (hexdigest t) (hex t)))
        (omega (arith, length-take 12 (hexdigest t)))

  pub base_name-pattern : (t : Text) → docker_name_pattern (base_name hexdigest t) ≡ true
  unfolding base_name
  base_name-pattern t = ground (arith, hashed_resource_name-pattern t, localcloud-pattern)

  -- A valid data volume has default names.
  pub default_resource_names-valid :
      (t : Text)
      → data_volume_pattern t ≡ true
      → default_resource_names hexdigest t
        ≡ ok (record { container = base_name hexdigest t; network = base_name hexdigest t })
  unfolding default_resource_names
  default_resource_names-valid t h = rw (validate_data_volume-valid t h)
