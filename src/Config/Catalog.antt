-- ===== src/Config/Catalog.antt =====
-- The service catalog: `_overlay_mapping`, `_effective_service_catalog`, `resolve_docker_socket` and
-- the enabled services of config.py. The packaged catalog, a data file, is a parameter.
pub mod Docker
mod Tests
use localcloud_cli.Prelude.{
  Bool, true, false, not, ◌||◌, List, [], ◌∷◌, Option, none, some, if◌then◌else◌, Result, ok, raise,
  type_error, ◌>>=◌, ◌>>◌, raise_if,
}
use localcloud_cli.Text.{Text, codes, elem, starts_with}
use localcloud_cli.Dict
use localcloud_cli.Dict.{Dict}
use localcloud_cli.Value.{
  Value, null, bool, str, list, dict, Entries, end, entry, Key, named, unnamed, Items, items,
  elements, get, or_null, has, truthy,
}
use localcloud_cli.Value.Equal.{equal, pop, set_entry}
use localcloud_cli.Config.Fields.{invalid, DockerAccessMode, auto, always, never}

abbrev nested : Option Value → Option Entries
nested (some (dict es)) = some es
nested _ = none

-- `base[key]` for an object in the overlay: the nested overlay where the base has an object too.
abbrev merged : (Entries → Result Entries) → Option Entries → Entries → Result Entries
merged overlay none es = ok es
merged overlay (some base) es = overlay base

abbrev set_dict : Text → Entries → Result Entries → Result Entries
set_dict k base (raise e) = raise e
set_dict k base (ok es) = ok (set_entry k (dict es) base)

-- The base as the overlay leaves it. A key that is no text is refused.
unfoldable pub overlay_mapping : Entries → Entries → Result Entries
unfolding get pop set_entry
overlay_mapping end base = ok base
overlay_mapping (entry (unnamed k) v overlay) base = raise invalid
overlay_mapping (entry (named k) null overlay) base = overlay_mapping overlay (pop k base)
overlay_mapping (entry (named k) (dict es) overlay) base =
    set_dict k base (merged (overlay_mapping es) (nested (get k (items base))) es)
    >>= overlay_mapping overlay
overlay_mapping (entry (named k) v overlay) base = overlay_mapping overlay (set_entry k v base)

abbrev pub Catalog : Type 0
Catalog = Dict Entries

abbrev pub or_empty : Option Entries → Entries
or_empty none = end
or_empty (some es) = es

abbrev pub is_object : Value → Result Entries
is_object (dict es) = ok es
is_object _ = raise invalid

abbrev pub text_key : Key → Result Text
text_key (named k) = ok k
text_key (unnamed k) = raise invalid

abbrev pub equal_optional : Value → Option Value → Bool
equal_optional v none = equal v null
equal_optional v (some w) = equal v w

module _ (packaged : Catalog) where
  -- `runtimeDependencies` may be repeated and not changed.
  unfoldable pub keeps_dependencies : Text → Items → Bool
  unfolding equal get
  keeps_dependencies service_id override =
      let canonical =
        get (codes "runtimeDependencies") (items (or_empty (Dict.get service_id packaged))) in
      elim (get (codes "runtimeDependencies") override) [
        | none ↦ true
        | some v ↦ equal_optional v canonical
      ]

  -- One round of the loop over `overrides.items()`.
  unfoldable pub override_service : Text → Value → Catalog → Result Catalog
  unfolding keeps_dependencies overlay_mapping
  override_service service_id null catalog = ok (Dict.remove service_id catalog)
  override_service service_id override catalog = do
    es ← is_object override
    raise_if (not (keeps_dependencies service_id (items es))) invalid
    definition ← overlay_mapping es (or_empty (Dict.get service_id catalog))
    ok (Dict.put service_id definition catalog)

  unfoldable pub override_services : Items → Catalog → Result Catalog
  unfolding override_service
  override_services [] catalog = ok catalog
  override_services ((k, v) ∷ overrides) catalog =
      (do service_id ← text_key k; override_service service_id v catalog)
      >>= override_services overrides

  -- `services_section.get("catalog") or {}`
  unfoldable pub effective_service_catalog : Items → Result Catalog
  unfolding override_services get truthy
  effective_service_catalog services_section =
      let overrides = or_null (get (codes "catalog") services_section) in
      if truthy overrides
      then (is_object overrides >>= λ es. override_services (items es) packaged)
      else ok packaged

-- `definition.get("defaultEnabled") is True`
abbrev pub is_true : Option Value → Bool
is_true (some (bool true)) = true
is_true _ = false

unfoldable pub default_services : Catalog → List Text
unfolding get
default_services [] = []
default_services ((service_id, definition) ∷ catalog) =
    let rest = default_services catalog in
    if is_true (get (codes "defaultEnabled") (items definition)) then service_id ∷ rest else rest

-- The services of a selection, the catalog's defaults for none.
unfoldable pub enabled_services : Option (List Text) → Catalog → List Text
unfolding default_services
enabled_services none catalog = default_services catalog
enabled_services (some services) catalog = services

unfoldable pub has_text : Text → Text → Bool
has_text needle [] = starts_with [] needle
has_text needle (c ∷ s) = starts_with (c ∷ s) needle || has_text needle s

unfoldable pub holds_text : Text → List Value → Bool
unfolding equal
holds_text t [] = false
holds_text t (v ∷ vs) = equal (str t) v || holds_text t vs

-- `"docker" in definition.get("runtimeDependencies", [])`
unfoldable pub depends_on : Text → Option Value → Result Bool
unfolding holds_text has_text has
depends_on t none = ok false
depends_on t (some (list vs)) = ok (holds_text t (elements vs))
depends_on t (some (str s)) = ok (has_text t s)
depends_on t (some (dict es)) = ok (has t (items es))
depends_on t (some v) = raise type_error

-- `any(…)`: the first service that is enabled and depends on Docker ends the search.
unfoldable pub any_docker : List Text → Catalog → Result Bool
unfolding depends_on get
any_docker enabled [] = ok false
any_docker enabled ((service_id, definition) ∷ catalog) =
    let rest = any_docker enabled catalog in
    if elem service_id enabled
    then (depends_on (codes "docker") (get (codes "runtimeDependencies") (items definition))
        >>= λ found. if found then ok true else rest)
    else rest

unfoldable pub resolve_docker_socket : DockerAccessMode → Option (List Text) → Catalog → Result Bool
unfolding any_docker enabled_services
resolve_docker_socket always services catalog = ok true
resolve_docker_socket never services catalog = ok false
resolve_docker_socket auto services catalog = any_docker (enabled_services services catalog) catalog
