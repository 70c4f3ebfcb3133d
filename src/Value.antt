-- ===== src/Value.antt =====
-- Values of a parsed JSON or YAML document, and what Python's operators do with them.
pub mod Fields
pub mod Equal
pub mod Assign
use localcloud_cli.Prelude.{
  ℕ, ◌≡◌, refl, Bool, true, false, not, ◌&&◌, ◌||◌, List, [], ◌∷◌, Option, none, some, ℤ, pos, eq_ℤ,
  all, if◌then◌else◌, Result, ok, raise, key_error,
}
use localcloud_cli.Text.{Text, ◌==◌, elem, is_empty}

-- A mapping key that is no text is known by its `str` only.
pub data Key : Type 0 where
  named : Text → Key
  unnamed : Text → Key

-- A float is known by its `str` and the integer that it equals, if any; a value of another type (a
-- date, say) by its `str`.
mutual
  pub data Value : Type 0 where
    null : Value
    bool : Bool → Value
    int : ℤ → Value
    float : Text → Option ℤ → Value
    str : Text → Value
    other : Text → Value
    list : Values → Value
    dict : Entries → Value

  pub data Values : Type 0 where
    nil : Values
    cons : Value → Values → Values

  pub data Entries : Type 0 where
    end : Entries
    entry : Key → Value → Entries → Entries

abbrev pub Items : Type 0
Items = List (Key × Value)

-- d.items()
abbrev pub items : Entries → Items
items end = []
items (entry k v es) = (k, v) ∷ items es

abbrev pub elements : Values → List Value
elements nil = []
elements (cons v vs) = v ∷ elements vs

abbrev pub is_key : Text → Key → Bool
is_key t (named s) = s == t
is_key t (unnamed s) = false

-- d.get(k) at a text k
unfoldable pub get : Text → Items → Option Value
get k [] = none
get k ((j, v) ∷ es) = if is_key k j then some v else get k es

abbrev pub or_null : Option Value → Value
or_null none = null
or_null (some v) = v

abbrev pub or_key_error : Option Value → Result Value
or_key_error none = raise key_error
or_key_error (some v) = ok v

-- d[k]
unfoldable pub get_item : Text → Items → Result Value
unfolding get
get_item k es = or_key_error (get k es)

abbrev pub is_null : Value → Bool
is_null null = true
is_null v = false

abbrev pub is_some : Option Value → Bool
is_some none = false
is_some (some v) = true

-- k in d
unfoldable pub has : Text → Items → Bool
unfolding get
has k es = is_some (get k es)

abbrev pub is_one_of : List Text → Key → Bool
is_one_of fields (named s) = elem s fields
is_one_of fields (unnamed s) = false

-- set(d) == fields
unfoldable pub has_fields : List Text → Items → Bool
unfolding has elem all
has_fields fields es =
    all (λ (e : Key × Value). is_one_of fields e.0) es && all (λ k. has k es) fields

-- bool(v)
unfoldable pub truthy : Value → Bool
truthy null = false
truthy (bool b) = b
truthy (int n) = not (eq_ℤ n (pos 0))
truthy (float t none) = true
truthy (float t (some n)) = not (eq_ℤ n (pos 0))
truthy (str t) = not (is_empty t)
truthy (other t) = true
truthy (list nil) = false
truthy (list (cons v vs)) = true
truthy (dict end) = false
truthy (dict (entry k v es)) = true

-- v == n at an integer n: `True` and 1.0 equal 1
unfoldable pub equals_int : Value → ℤ → Bool
equals_int (bool b) n = eq_ℤ (pos (if b then 1 else 0)) n
equals_int (int m) n = eq_ℤ m n
equals_int (float t (some m)) n = eq_ℤ m n
equals_int _ n = false

-- Whether `v in {...}` raises no TypeError.
unfoldable pub is_hashable : Value → Bool
is_hashable (list vs) = false
is_hashable (dict es) = false
is_hashable _ = true
