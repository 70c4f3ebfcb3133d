-- ===== src/Dict.antt =====
-- Python's `dict` with text keys, in insertion order, and `sorted(d.items())`.
pub mod Laws
use localcloud_cli.Prelude.{Bool, List, [], ◌∷◌, Option, none, some, if◌then◌else◌}
use localcloud_cli.Text.{Text, ◌==◌}
use localcloud_cli.Text.Order.{leb_text}

abbrev pub Dict {ℓ} : Type ℓ → Type ℓ
Dict V = List (Text × V)

module _ {ℓ} {V : Type ℓ} where
  -- d.get(k)
  unfoldable pub get : Text → Dict V → Option V
  get k [] = none
  get k ((j, v) ∷ d) = if j == k then some v else get k d

  -- d[k] = v: a key that is there keeps its place
  unfoldable pub put : Text → V → Dict V → Dict V
  put k v [] = (k, v) ∷ []
  put k v ((j, w) ∷ d) = if j == k then (j, v) ∷ d else (j, w) ∷ put k v d

  -- del d[k]
  unfoldable pub remove : Text → Dict V → Dict V
  remove k [] = []
  remove k ((j, w) ∷ d) = if j == k then d else (j, w) ∷ remove k d

  unfoldable pub insert_item : Text → V → Dict V → Dict V
  insert_item k v [] = (k, v) ∷ []
  insert_item k v ((j, w) ∷ d) =
      if leb_text k j then (k, v) ∷ (j, w) ∷ d else (j, w) ∷ insert_item k v d

  -- sorted(d.items())
  unfoldable pub sorted : Dict V → Dict V
  sorted [] = []
  sorted ((k, v) ∷ d) = insert_item k v (sorted d)
