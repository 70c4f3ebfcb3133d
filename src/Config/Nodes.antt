-- ===== src/Config/Nodes.antt =====
-- `_validate_yaml_node` and `_read_config` of config.py. The composed document is a graph: an alias
-- is the node it names, and `graph` gives the node of an identity. Python's own limit on the depth
-- of a recursion is not modelled: the composer recurs as deep before.
pub mod Terminates
pub mod Clean
pub mod Sound
pub mod Complete
mod Tests
use localcloud_cli.Prelude.{
  ℕ, zero, suc, ◌≡◌, Bool, true, false, not, ◌&&◌, ◌||◌, List, [], ◌∷◌, Option, none, some, any,
  ◌=?◌, if◌then◌else◌, Result, ok, raise, raise_if, ◌>>=◌, ◌>>◌,
}
use localcloud_cli.Text.{Text, codes, ◌==◌, elem, lower}
use localcloud_cli.Value.{Value, null, dict, Items, items}
use localcloud_cli.Config.Fields.{invalid}

-- A mapping lists its keys and values, a scalar has its tag, its text, and whether it is plain.
pub data Node : Type 0 where
  mapping : List (ℕ × ℕ) → Node
  sequence : List ℕ → Node
  scalar : (tag value : Text) (plain : Bool) → Node

abbrev pub Graph : Type 0
Graph = ℕ → Node

-- `none` where the fuel is spent.
abbrev pub Walk : Type 0 → Type 0
Walk A = Option (Result A)

infixl 5 ◌>=>◌
abbrev pub ◌>=>◌ : {A B : Type 0} → Walk A → (A → Walk B) → Walk B
none >=> next = none
some (raise e) >=> next = some (raise e)
some (ok a) >=> next = next a

-- `identity in identities`
unfoldable pub contains : ℕ → List ℕ → Bool
contains id [] = false
contains id (other ∷ more) = id =? other || contains id more

abbrev pub string_tag : Text
string_tag = codes "tag:yaml.org,2002:str"

abbrev pub merge_tag : Text
merge_tag = codes "tag:yaml.org,2002:merge"

abbrev pub exact_special_scalars : List Text
exact_special_scalars = codes "true" ∷ codes "false" ∷ codes "null" ∷ codes "~" ∷ []

abbrev pub ambiguous_plain_scalars : List Text
ambiguous_plain_scalars =
    codes "yes" ∷ codes "no" ∷ codes "on" ∷ codes "off" ∷ exact_special_scalars

unfoldable pub is_ambiguous : Text → Bool
unfolding elem lower
is_ambiguous value =
    elem (lower value) ambiguous_plain_scalars && not (elem value exact_special_scalars)

-- The checks of one key, which give its name.
unfoldable pub check_key : List Text → Node → Result Text
unfolding elem ◌==◌
check_key seen (scalar tag value plain) = do
  raise_if (value == codes "<<" || tag == merge_tag) invalid
  raise_if (not (tag == string_tag)) invalid
  raise_if (elem value seen) invalid
  ok value
check_key seen node = raise invalid

module _ (graph : Graph) where
  -- The loop over the pairs of a mapping; `walk` is the call on a child.
  unfoldable pub walk_pairs :
      (ℕ → List ℕ → Walk (List ℕ)) → List (ℕ × ℕ) → List Text → List ℕ → Walk (List ℕ)
  unfolding check_key
  walk_pairs walk [] seen validated = some (ok validated)
  walk_pairs walk ((key, value) ∷ more) seen validated =
      some (check_key seen (graph key)) >=> λ name. walk key validated >=> λ with_key.
      walk value with_key >=> λ with_value. walk_pairs walk more (name ∷ seen) with_value

  unfoldable pub walk_items : (ℕ → List ℕ → Walk (List ℕ)) → List ℕ → List ℕ → Walk (List ℕ)
  walk_items walk [] validated = some (ok validated)
  walk_items walk (item ∷ more) validated = walk item validated >=> walk_items walk more

  unfoldable pub visit : (ℕ → List ℕ → Walk (List ℕ)) → Node → List ℕ → Walk (List ℕ)
  unfolding walk_pairs walk_items is_ambiguous
  visit walk (mapping pairs) validated = walk_pairs walk pairs [] validated
  visit walk (sequence children) validated = walk_items walk children validated
  visit walk (scalar tag value plain) validated =
      if plain && is_ambiguous value then some (raise invalid) else some (ok validated)

  -- The set `active` is passed down, since the `finally` restores it; `validated` is passed on.
  unfoldable pub validate_yaml_node : ℕ → List ℕ → ℕ → List ℕ → Walk (List ℕ)
  unfolding visit contains
  validate_yaml_node zero active id validated = none
  validate_yaml_node (suc fuel) active id validated = elim (contains id active) [
    | true ↦ some (raise invalid)
    | false ↦ elim (contains id validated) [
      | true ↦ some (ok validated)
      | false ↦ visit (validate_yaml_node fuel (id ∷ active)) (graph id) validated >=> λ more.
          some (ok (id ∷ more))
    ]
  ]

-- What the file gives: no text (two ways), no YAML, an empty document, or the composed nodes, with
-- what `yaml.load` makes of them: `none` where it fails.
pub data Source : Type 0 where
  unreadable not_utf_8 not_yaml blank : Source
  composed : (size : ℕ) (graph : Graph) (root : ℕ) (loaded : Option Value) → Source

abbrev pub parsed_items : Option Value → Result Items
parsed_items none = raise invalid
parsed_items (some null) = ok []
parsed_items (some (dict entries)) = ok (items entries)
parsed_items (some v) = raise invalid

-- The walk, and then the loading; more rounds than there are nodes are never needed.
abbrev pub after_walk : Walk (List ℕ) → Option Value → Result Items
after_walk none loaded = raise invalid
after_walk (some (raise e)) loaded = raise e
after_walk (some (ok validated)) loaded = parsed_items loaded

unfoldable pub read_source : Source → Result Items
unfolding validate_yaml_node
read_source unreadable = raise invalid
read_source not_utf_8 = raise invalid
read_source not_yaml = raise invalid
read_source blank = ok []
read_source (composed size graph root loaded) =
    after_walk (validate_yaml_node graph (suc size) [] root []) loaded

unfoldable pub read_config : (Text → Source) → Option Text → Result Items
unfolding read_source
read_config source none = ok []
read_config source (some path) = read_source (source path)
