-- ===== src/Value/Fields.antt =====
-- A document with the expected fields has a value under each of them.
use localcloud_cli.Prelude.{
  ◌≡◌, Bool, true, List, [], ◌∷◌, Option, none, some, all, and-eq-true, Bool-cases, inl, inr,
  Exception, Raises, Raises-ok, subst, sym,
}
use localcloud_cli.Text.{Text, ◌==◌, elem}
use localcloud_cli.Text.Laws.{==_iff}
use localcloud_cli.Value.{
  Items, Key, Value, get, get_item, has, has_fields, or_key_error, is_some, is_one_of,
}

all-elem :
    (p : Text → Bool) (k : Text) (ks : List Text) → all p ks ≡ true → elem k ks ≡ true → p k ≡ true
unfolding all elem
all-elem p k [] h e = cc
all-elem p k (j ∷ ks) h e =
    let (here, later) = and-eq-true (p j) _ h in
    elim (Bool-cases (k == j)) [
      | inl same ↦ subst (λ t. p t ≡ true) (sym ((==_iff k j).0 same)) here
      | inr other ↦ all-elem p k ks later (rw other at e)
    ]

pub has_of_fields :
    (fields : List Text) (es : Items) (k : Text)
    → has_fields fields es ≡ true
    → elem k fields ≡ true
    → has k es ≡ true
unfolding has_fields
has_of_fields fields es k h e =
    let (_, present) = and-eq-true (all (λ (x : Key × Value). is_one_of fields x.0) es) _ h in
    all-elem (λ j. has j es) k fields present e

or_key_error-Raises :
    {P : Exception → Type 0} (o : Option Value) → is_some o ≡ true → Raises P (or_key_error o)
or_key_error-Raises none h = cc
or_key_error-Raises (some v) h = Raises-ok v

-- `d[k]` of a field that is there raises nothing.
pub get_item-Raises :
    {P : Exception → Type 0} (k : Text) (es : Items) → has k es ≡ true → Raises P (get_item k es)
unfolding get_item has
get_item-Raises k es h = or_key_error-Raises (get k es) h
