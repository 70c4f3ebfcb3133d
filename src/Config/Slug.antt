-- ===== src/Config/Slug.antt =====
-- `slugify_project_name` of config.py. `to_ascii` is the text's NFKD form without its characters
-- outside ASCII.
pub mod Dashes
pub mod Valid
mod Tests
use localcloud_cli.Prelude.{
  ℕ, zero, suc, Bool, true, false, ◌||◌, [], ◌∷◌, ◌++◌, Option, none, some, ltb, ◌=?◌, take, length,
  if◌then◌else◌,
}
use localcloud_cli.Text.{Text, codes, strip, lower, is_empty, starts_with}
use localcloud_cli.Text.Patterns.{is_lower_letter, is_upper_letter}
use localcloud_cli.Config.Fields.{is_slug_char, project_id_pattern}

-- re.sub(r"[^a-z0-9]+", "-", s); the flag says that the character before was replaced.
unfoldable pub squash : Bool → Text → Text
squash replaced [] = []
squash replaced (c ∷ s) =
    let kept = c ∷ squash false s in
    let rest = squash true s in
    if is_slug_char c then kept else if replaced then rest else b'-' ∷ rest

-- s.lstrip("-"), s.rstrip("-"), s.strip("-")
unfoldable pub lstrip_dash : Text → Text
lstrip_dash [] = []
lstrip_dash (c ∷ s) = if c =? b'-' then lstrip_dash s else c ∷ s

abbrev pub keep_dash : ℕ → Text → Text
keep_dash c [] = if c =? b'-' then [] else c ∷ []
keep_dash c (d ∷ s) = c ∷ d ∷ s

unfoldable pub rstrip_dash : Text → Text
rstrip_dash [] = []
rstrip_dash (c ∷ s) = keep_dash c (rstrip_dash s)

-- What `[^a-z0-9]+` leaves of a name, without dashes at its ends.
unfoldable pub cleaned_name : Text → Text
unfolding squash lstrip_dash rstrip_dash
cleaned_name lowered = rstrip_dash (lstrip_dash (squash false lowered))

abbrev pub starts_alpha : Text → Bool
starts_alpha [] = false
starts_alpha (c ∷ s) = is_lower_letter c || is_upper_letter c

abbrev pub proj : Text
proj = codes "proj-"

unfoldable pub shortened : Text → Text
unfolding rstrip_dash
shortened s = rstrip_dash (take 30 s)

-- `while len(cleaned) < 6`; each round adds four characters.
unfoldable pub pad : ℕ → Text → Text
pad zero s = s
pad (suc fuel) s = let more = pad fuel (s ++ codes "-dev") in if ltb (length s) 6 then more else s

unfoldable pub lengthened : Text → Text
unfolding pad shortened starts_with
lengthened s =
    if ltb (length s) 6 then shortened (pad 6 (if starts_with s proj then s else proj ++ s)) else s

abbrev pub with_letter : Text → Text
with_letter s = if starts_alpha s then s else proj ++ s

unfoldable pub project_of : Text → Option Text
unfolding shortened lengthened
project_of cleaned =
    let project = lengthened (shortened (with_letter cleaned)) in
    if is_empty cleaned then none else if project_id_pattern project then some project else none

unfoldable pub slugify_project_name : (Text → Text) → Text → Option Text
unfolding project_of cleaned_name
slugify_project_name to_ascii name =
    if is_empty name then none else project_of (cleaned_name (lower (strip (to_ascii name))))
