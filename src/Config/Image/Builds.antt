-- ===== src/Config/Image/Builds.antt =====
-- The eStargz build of an image and the build it came from.
use localcloud_cli.Prelude.{ℕ, ◌≡◌, refl, true, false, ◌||◌, [], ◌∷◌, ◌++◌, some, arith, ok}
use localcloud_cli.Text.{Text, codes, has_char, starts_with, ends_with}
use localcloud_cli.Text.Laws.{ends_with-append, remove_suffix_append}
use localcloud_cli.Config.Image.{
  image_tag, rpartition, estargz_image, is_estargz_image, estargz_tag_suffix,
}

has_char-append : (c : ℕ) (s t : Text) → has_char c (s ++ t) ≡ (has_char c s || has_char c t)
unfolding has_char
has_char-append c [] t = refl
has_char-append c (d ∷ s) t = ground (arith, has_char-append c s t)

-- A text with no separator in it is its own last part.
rpartition_none : (c : ℕ) (s : Text) → has_char c s ≡ false → rpartition c s ≡ ([], false, s)
unfolding rpartition has_char
rpartition_none c [] h = refl
rpartition_none c (d ∷ s) h = ground (arith, rpartition_none c s)

rpartition-append :
    (c : ℕ) (s t : Text) → has_char c t ≡ false → rpartition c (s ++ c ∷ t) ≡ (s, true, t)
unfolding rpartition
rpartition-append c [] t h = ground (arith, rpartition_none c t h)
rpartition-append c (d ∷ s) t h = ground (arith, rpartition-append c s t h)

-- Whether a text starts with one that ends in its only separator shows in front of the next
-- separator.
starts_with-separator :
    (c : ℕ) (r p t : Text)
    → has_char c p ≡ false
    → starts_with (r ++ c ∷ t) (p ++ c ∷ []) ≡ starts_with (r ++ c ∷ []) (p ++ c ∷ [])
unfolding starts_with has_char
starts_with-separator c [] [] t h = ground arith
starts_with-separator c [] (b ∷ p) t h = ground arith
starts_with-separator c (a ∷ r) [] t h = ground arith
starts_with-separator c (a ∷ r) (b ∷ p) t h = ground (arith, starts_with-separator c r p t)

-- A reference that names a tag: no digest, and no image ID.
pub record IsTagged (repository tag : Text) : Type 0 where
  pub repository_digest : has_char b'@' repository ≡ false
  pub tag_digest : has_char b'@' tag ≡ false
  pub tag_colon : has_char b':' tag ≡ false
  pub tag_slash : has_char b'/' tag ≡ false
  pub image_id : starts_with (repository ++ b':' ∷ []) (codes "sha256:") ≡ false

image_tag-tagged :
    (repository tag : Text)
    → IsTagged repository tag
    → image_tag (repository ++ b':' ∷ tag) ≡ some (repository, tag)
unfolding image_tag has_char codes
image_tag-tagged r t h =
    let no_id = starts_with-separator b':' r (codes "sha256") t refl in
    rw
      (
        has_char-append b'@' r (b':' ∷ t),
        h.repository_digest,
        h.tag_digest,
        no_id,
        h.image_id,
        rpartition-append b':' r t h.tag_colon,
        h.tag_slash,
      )
      refl

suffixed-IsTagged :
    (repository tag : Text)
    → IsTagged repository tag
    → IsTagged repository (tag ++ estargz_tag_suffix)
unfolding has_char codes
suffixed-IsTagged r t h = record {
  repository_digest = h.repository_digest;
  tag_digest = rw (has_char-append b'@' t estargz_tag_suffix, h.tag_digest) refl;
  tag_colon = rw (has_char-append b':' t estargz_tag_suffix, h.tag_colon) refl;
  tag_slash = rw (has_char-append b'/' t estargz_tag_suffix, h.tag_slash) refl;
  image_id = h.image_id;
}

-- For an image reference with a tag, neither a digest nor an image ID, whose tag does not end in
-- "-estargz": the eStargz build asked for is the reference with "-estargz" behind its tag, that
-- build is recognised as one, and the ordinary build asked for from it is the reference again.
pub estargz_image-estargz_image :
    (repository tag : Text)
    → IsTagged repository tag
    → ends_with tag (estargz_tag_suffix) ≡ false
    → let image = repository ++ b':' ∷ tag in
      let build = repository ++ b':' ∷ (tag ++ estargz_tag_suffix) in
      (estargz_image image true ≡ ok build)
      × (is_estargz_image build ≡ true)
      × (estargz_image build false ≡ ok image)
unfolding estargz_image is_estargz_image
estargz_image-estargz_image r t h plain =
    let tagged = image_tag-tagged r t h in
    let suffixed = image_tag-tagged r (t ++ estargz_tag_suffix) (suffixed-IsTagged r t h) in
    (
      rw (tagged, plain) refl,
      rw (suffixed, ends_with-append t estargz_tag_suffix) refl,
      rw
          (
            suffixed,
            ends_with-append t estargz_tag_suffix,
            remove_suffix_append t estargz_tag_suffix,
          )
          refl,
    )
