-- ===== src/Text/Order.antt =====
-- The order of `str`, by code points, as `sorted` and `min` use it.
use localcloud_cli.Prelude.{◌≡◌, refl, Bool, true, false, ◌&&◌, ◌||◌, [], ◌∷◌, ltb, ◌=?◌, arith}
use localcloud_cli.Text.{Text, ◌==◌}

-- s <= t
unfoldable pub leb_text : Text → Text → Bool
leb_text [] t = true
leb_text (a ∷ s) [] = false
leb_text (a ∷ s) (b ∷ t) = ltb a b || a =? b && leb_text s t

pub leb_text_refl : (s : Text) → leb_text s s ≡ true
unfolding leb_text
leb_text_refl [] = refl
leb_text_refl (a ∷ s) = ground (arith, leb_text_refl s)

pub leb_text_total : (s t : Text) → leb_text s t ≡ false → leb_text t s ≡ true
unfolding leb_text
leb_text_total [] t h = cc
leb_text_total (a ∷ s) [] h = refl
leb_text_total (a ∷ s) (b ∷ t) h = ground (arith, leb_text_total s t)

pub leb_text_trans :
    (s t u : Text) → leb_text s t ≡ true → leb_text t u ≡ true → leb_text s u ≡ true
unfolding leb_text
leb_text_trans [] t u h k = refl
leb_text_trans (a ∷ s) [] u h k = cc
leb_text_trans (a ∷ s) (b ∷ t) [] h k = cc
leb_text_trans (a ∷ s) (b ∷ t) (c ∷ u) h k = ground (arith, leb_text_trans s t u)

pub leb_text_antisym : (s t : Text) → leb_text s t ≡ true → leb_text t s ≡ true → (s == t) ≡ true
unfolding leb_text ◌==◌
leb_text_antisym [] [] h k = refl
leb_text_antisym [] (b ∷ t) h k = cc
leb_text_antisym (a ∷ s) [] h k = cc
leb_text_antisym (a ∷ s) (b ∷ t) h k = ground (arith, leb_text_antisym s t)
