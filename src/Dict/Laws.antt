-- ===== src/Dict/Laws.antt =====
-- Lookup after each operation of a dict, and the keys that an operation leaves distinct.
use localcloud_cli.Prelude.{
  subst, sym, ◌≡◌, refl, [], ◌∷◌, ◌++◌, Option, none, some, arith, if◌then◌else◌, Bool-cases, inl,
  inr, All,
}
use localcloud_cli.Text.{Text, ◌==◌}
use localcloud_cli.Text.Laws.{==_iff}
use localcloud_cli.Text.Order.{leb_text, leb_text_refl}
use localcloud_cli.Dict.{Dict, get, put, remove, insert_item, sorted}

module _ {ℓ} {V : Type ℓ} where
  -- No key stands twice.
  abbrev pub Distinct : Dict V → Type ℓ
  Distinct [] = Unit
  Distinct ((k, v) ∷ d) = (get k d ≡ none) × Distinct d

  pub get-put :
      (k j : Text) (v : V) (d : Dict V) → get j (put k v d) ≡ (if k == j then some v else get j d)
  unfolding get put
  get-put k j v [] = refl
  get-put k j v ((i, w) ∷ d) = ground (arith, ==_iff k j, ==_iff i k, ==_iff i j, get-put k j v d)

  pub get-insert_item :
      (k j : Text) (v : V) (d : Dict V)
      → get j (insert_item k v d) ≡ (if k == j then some v else get j d)
  unfolding get insert_item
  get-insert_item k j v [] = refl
  get-insert_item k j v ((i, w) ∷ d) =
      ground (arith, ==_iff k j, ==_iff i j, leb_text_refl k, get-insert_item k j v d)

  -- Sorting changes no lookup.
  pub get-sorted : (j : Text) (d : Dict V) → get j (sorted d) ≡ get j d
  unfolding get sorted
  get-sorted j [] = refl
  get-sorted j ((k, v) ∷ d) = rw (get-insert_item, get-sorted j d)

  pub get-remove :
      (k j : Text) (d : Dict V)
      → Distinct d
      → get j (remove k d) ≡ (if k == j then none else get j d)
  unfolding get remove
  get-remove k j [] h = ground arith
  get-remove k j ((i, w) ∷ d) (h, hs) =
      ground (arith, ==_iff k j, ==_iff i k, ==_iff i j, get-remove k j d hs)

  pub put-Distinct : (k : Text) (v : V) (d : Dict V) → Distinct d → Distinct (put k v d)
  unfolding put get
  put-Distinct k v [] h = (refl, tt)
  put-Distinct k v ((i, w) ∷ d) (h, hs) =
      ground (arith, ==_iff i k, ==_iff k i, get-put k i v d, put-Distinct k v d hs)

  pub remove-Distinct : (k : Text) (d : Dict V) → Distinct d → Distinct (remove k d)
  unfolding remove
  remove-Distinct k [] h = tt
  remove-Distinct k ((i, w) ∷ d) (h, hs) =
      ground (arith, get-remove k i d hs, remove-Distinct k d hs)

  insert_item-Distinct :
      (k : Text) (v : V) (d : Dict V) → get k d ≡ none → Distinct d → Distinct (insert_item k v d)
  unfolding insert_item get
  insert_item-Distinct k v [] h hs = (refl, tt)
  insert_item-Distinct k v ((i, w) ∷ d) h (new, hs) =
      ground
        (arith, ==_iff i k, ==_iff k i, get-insert_item k i v d, insert_item-Distinct k v d, hs)

  pub sorted-Distinct : (d : Dict V) → Distinct d → Distinct (sorted d)
  unfolding sorted
  sorted-Distinct [] h = tt
  sorted-Distinct ((k, v) ∷ d) (h, hs) =
      insert_item-Distinct k v (sorted d) (rw get-sorted h) (sorted-Distinct d hs)

  -- A new key goes to the end.
  pub put-new : (k : Text) (v : V) (d : Dict V) → get k d ≡ none → put k v d ≡ d ++ (k, v) ∷ []
  unfolding put get
  put-new k v [] h = refl
  put-new k v ((i, w) ∷ d) h = ground (arith, put-new k v d)

  abbrev or_else : Option V → Option V → Option V
  or_else none o = o
  or_else (some v) o = some v

  get-append : (k : Text) (d e : Dict V) → get k (d ++ e) ≡ or_else (get k d) (get k e)
  unfolding get
  get-append k [] e = refl
  get-append k ((i, w) ∷ d) e = ground (arith, get-append k d e)

  -- In a dict of distinct keys a later key does not stand earlier.
  pub get-Distinct : (k : Text) (v : V) (d e : Dict V) → Distinct (d ++ (k, v) ∷ e) → get k d ≡ none
  unfolding get
  get-Distinct k v [] e h = refl
  get-Distinct k v ((i, w) ∷ d) e (h, hs) =
      ground (arith, get-append i d ((k, v) ∷ e), ==_iff i k, ==_iff k i, get-Distinct k v d e hs)

  -- A predicate of all entries holds of what a lookup finds, and is kept by each operation.
  module _ {κ} (P : Text × V → Type κ) where
    pub get-All : (k : Text) (v : V) (d : Dict V) → All P d → get k d ≡ some v → P (k, v)
    unfolding get
    get-All k v [] h e = cc
    get-All k v ((i, w) ∷ d) (h, hs) e = elim (Bool-cases (i == k)) [
      | inl same ↦
          let at_key : i ≡ k = (==_iff i k).0 same in
          let found : some w ≡ some v = rw same at e in subst P (cc) h
      | inr other ↦ get-All k v d hs (rw other at e)
    ]

    pub put-All : (k : Text) (v : V) (d : Dict V) → P (k, v) → All P d → All P (put k v d)
    unfolding put
    put-All k v [] p h = (p, tt)
    put-All k v ((i, w) ∷ d) p (h, hs) = elim (Bool-cases (i == k)) [
      | inl same ↦ rw same (subst (λ j. P (j, v)) (sym ((==_iff i k).0 same)) p, hs)
      | inr other ↦ rw other (h, put-All k v d p hs)
    ]

    pub remove-All : (k : Text) (d : Dict V) → All P d → All P (remove k d)
    unfolding remove
    remove-All k [] h = tt
    remove-All k ((i, w) ∷ d) (h, hs) = elim (Bool-cases (i == k)) [
      | inl same ↦ rw same hs
      | inr other ↦ rw other (h, remove-All k d hs)
    ]

    insert_item-All :
        (k : Text) (v : V) (d : Dict V) → P (k, v) → All P d → All P (insert_item k v d)
    unfolding insert_item
    insert_item-All k v [] p h = (p, tt)
    insert_item-All k v ((i, w) ∷ d) p (h, hs) = elim (Bool-cases (leb_text k i)) [
      | inl before ↦ rw before (p, (h, hs))
      | inr after ↦ rw after (h, insert_item-All k v d p hs)
    ]

    pub sorted-All : (d : Dict V) → All P d → All P (sorted d)
    unfolding sorted
    sorted-All [] h = tt
    sorted-All ((k, v) ∷ d) (h, hs) = insert_item-All k v (sorted d) h (sorted-All d hs)
