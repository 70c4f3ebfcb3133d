-- ===== src/Config/Image.antt =====
-- Image references: `_image_tag`, `is_estargz_image` and `estargz_image` of config.py.
pub mod Builds
use localcloud_cli.Prelude.{
  ℕ, ◌≡◌, Bool, true, false, not, ◌&&◌, ◌||◌, [], ◌∷◌, ◌++◌, Option, none, some, if◌then◌else◌,
  Result, ok, raise, ◌=?◌,
}
use localcloud_cli.Text.{Text, codes, ◌==◌, has_char, starts_with, ends_with, remove_suffix}
use localcloud_cli.Config.Fields.{invalid}

-- s.rpartition(c): what stands before the last c, whether there is one, and what follows it
abbrev pub last_part : ℕ → ℕ → Text → Text × Bool × Text → Text × Bool × Text
last_part c d s (before, true, after) = (d ∷ before, true, after)
last_part c d s (before, false, after) = if d =? c then ([], true, s) else ([], false, d ∷ s)

unfoldable pub rpartition : ℕ → Text → Text × Bool × Text
rpartition c [] = ([], false, [])
rpartition c (d ∷ s) = last_part c d s (rpartition c s)

abbrev pub tag_of : Text → Text × Bool × Text → Text × Text
tag_of image (repository, colon, tag) =
    if not colon || has_char b'/' tag then (image, codes "latest") else (repository, tag)

-- The repository and the tag, `none` for a digest or an image ID.
unfoldable pub image_tag : Text → Option (Text × Text)
unfolding rpartition has_char starts_with
image_tag image =
    if has_char b'@' image || starts_with image (codes "sha256:")
    then none
    else some (tag_of image (rpartition b':' image))

abbrev pub estargz_tag_suffix : Text
estargz_tag_suffix = codes "-estargz"

abbrev pub is_estargz_tag : Option (Text × Text) → Bool
is_estargz_tag none = false
is_estargz_tag (some (repository, tag)) = ends_with tag estargz_tag_suffix

unfoldable pub is_estargz_image : Text → Bool
unfolding image_tag
is_estargz_image image = is_estargz_tag (image_tag image)

abbrev pub same_bool : Bool → Bool → Bool
same_bool true b = b
same_bool false b = not b

abbrev pub retagged : Option (Text × Text) → Bool → Result Text
retagged none enabled = raise invalid
retagged (some (repository, tag)) enabled = ok (
    repository
    ++ b':' ∷ (if enabled then tag ++ estargz_tag_suffix else remove_suffix tag estargz_tag_suffix))

unfoldable pub estargz_image : Text → Bool → Result Text
unfolding is_estargz_image image_tag remove_suffix
estargz_image image enabled =
    if same_bool (is_estargz_image image) enabled
    then ok image
    else retagged (image_tag image) enabled
