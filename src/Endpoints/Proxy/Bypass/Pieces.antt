-- ===== src/Endpoints/Proxy/Bypass/Pieces.antt =====
-- Texts with commas between them, joined and split.
use localcloud_cli.Prelude.{
  ◌≡◌, refl, ap, ◌∙◌, true, false, not, ◌=?◌, List, [], ◌∷◌, ◌++◌, arith, All, all, and-eq-true,
}
use localcloud_cli.Text.{Text}
use localcloud_cli.Endpoints.Proxy.{split, join}

-- Texts with a comma between each two.
abbrev pub with_commas : Text → List Text → Text
with_commas t [] = t
with_commas t (u ∷ us) = t ++ b',' ∷ with_commas u us

abbrev pub HasNoComma : Text → Type 0
HasNoComma t = all (λ c. not (c =? b',')) t ≡ true

split-last : (t : Text) → HasNoComma t → split b',' t ≡ t ∷ []
unfolding split all
split-last [] h = refl
split-last (c ∷ t) h =
    let (here, rest) = and-eq-true (not (c =? b',')) _ h in
    let apart : (c =? b',') ≡ false = ground arith in rw (apart, split-last t rest) refl

split-comma : (t s : Text) → HasNoComma t → split b',' (t ++ b',' ∷ s) ≡ t ∷ split b',' s
unfolding split all
split-comma [] s h = refl
split-comma (c ∷ t) s h =
    let (here, rest) = and-eq-true (not (c =? b',')) _ h in
    let apart : (c =? b',') ≡ false = ground arith in rw (apart, split-comma t s rest) refl

pub split-with_commas :
    (t : Text) (ts : List Text)
    → HasNoComma t
    → All HasNoComma ts
    → split b',' (with_commas t ts) ≡ t ∷ ts
split-with_commas t [] h hs = split-last t h
split-with_commas t (u ∷ us) h (k, ks) =
    split-comma t (with_commas u us) h ∙ ap (λ xs. t ∷ xs) (split-with_commas u us k ks)

join-with_commas : (t : Text) (ts : List Text) → join (t ∷ ts) ≡ with_commas t ts
unfolding join
join-with_commas t [] = refl
join-with_commas t (u ∷ us) = ap (λ s. t ++ b',' ∷ s) (join-with_commas u us)

abbrev pub commas : List Text → Text
commas [] = []
commas (t ∷ ts) = with_commas t ts

pub join-commas : (ts : List Text) → join ts ≡ commas ts
unfolding join
join-commas [] = refl
join-commas (t ∷ ts) = join-with_commas t ts
