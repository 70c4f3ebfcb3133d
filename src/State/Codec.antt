-- ===== src/State/Codec.antt =====
-- `_decode_runtime_entry` and `_decode_active_state` of state.py, and the document that is written.
pub mod RoundTrip
pub mod Sound
pub mod Errors
pub mod Migration
use localcloud_cli.Prelude.{
  is_nil, ◌≡◌, Bool, true, false, ◌&&◌, ◌||◌, not, List, [], ◌∷◌, ◌++◌, Option, none, some, ℤ, pos,
  if◌then◌else◌, Result, ok, raise, value_error, type_error, raise_if, ◌>>=◌, ◌>>◌,
}
use localcloud_cli.Text.{Text, codes, ◌==◌}
use localcloud_cli.Dict
use localcloud_cli.Dict.{Dict}
use localcloud_cli.Value.{
  Value, null, int, str, dict, Entries, end, entry, named, unnamed, Key, Items, items, get,
  get_item, or_null, has_fields, truthy, equals_int, is_hashable,
}
use localcloud_cli.State.{
  ActiveRuntime, Names, active_runtime_schema_version, validate_data_volume, default_resource_names,
  non_blank_string, docker_name,
}

abbrev pub entry_fields : List Text
entry_fields =
    codes "data_volume"
    ∷ codes "image"
    ∷ codes "container_id"
    ∷ codes "container_name"
    ∷ codes "network_name"
    ∷ []

unfoldable pub decode_runtime_entry : Items → Result ActiveRuntime
unfolding get_item has_fields
decode_runtime_entry raw = do
  raise_if (not (has_fields entry_fields raw)) value_error
  volume_value ← get_item (codes "data_volume") raw
  data_volume ← validate_data_volume volume_value
  image_value ← get_item (codes "image") raw
  image ← non_blank_string image_value
  id_value ← get_item (codes "container_id") raw
  container_id ← non_blank_string id_value
  container_value ← get_item (codes "container_name") raw
  container_name ← docker_name container_value
  network_value ← get_item (codes "network_name") raw
  network_name ← docker_name network_value
  ok (record {
    schema_version = active_runtime_schema_version;
    data_volume = data_volume;
    image = image;
    container_id = container_id;
    container_name = some container_name;
    network_name = some network_name;
  })

abbrev pub old_fields : Bool → List Text
old_fields named_too =
    codes "schema_version"
    ∷ codes "data_volume"
    ∷ codes "image"
    ∷ codes "container_id"
    ∷ (if named_too then codes "container_name" ∷ codes "network_name" ∷ [] else [])

abbrev pub or_text : Option Value → Text → Value
or_text none default = str default
or_text (some v) default = if truthy v then v else str default

abbrev pub State : Type 0
State = Dict ActiveRuntime × Text

module _ (hexdigest : Text → Text) where
  -- Schema 1 and 2: a document is one runtime.
  unfoldable pub decode_old_state : Bool → Items → Result State
  unfolding get_item get has_fields
  decode_old_state is_two raw = do
    raise_if (not (has_fields (old_fields is_two) raw)) value_error
    volume_value ← get_item (codes "data_volume") raw
    volume ← validate_data_volume volume_value
    names ← default_resource_names hexdigest volume
    image_value ← get_item (codes "image") raw
    image ← non_blank_string image_value
    id_value ← get_item (codes "container_id") raw
    container_id ← non_blank_string id_value
    container_name ← docker_name (or_text (get (codes "container_name") raw) names.container)
    network_name ← docker_name (or_text (get (codes "network_name") raw) names.network)
    ok (
      (
        volume,
        record {
          schema_version = active_runtime_schema_version;
          data_volume = volume;
          image = image;
          container_id = container_id;
          container_name = some container_name;
          network_name = some network_name;
        },
      )
          ∷ [],
      volume,
    )

abbrev pub key_value : Key → Value
key_value (named t) = str t
key_value (unnamed t) = Value.other t

abbrev pub as_items : Value → Result Items
as_items (dict es) = ok (items es)
as_items _ = raise value_error

-- One round of the loop over `runtimes_raw.items()`.
unfoldable pub decode_item : Key → Value → Dict ActiveRuntime → Result (Dict ActiveRuntime)
unfolding decode_runtime_entry
decode_item volume value runtimes = do
  validated_volume ← validate_data_volume (key_value volume)
  raw ← as_items value
  runtime ← decode_runtime_entry raw
  raise_if (not (runtime.data_volume == validated_volume)) value_error
  ok (Dict.put validated_volume runtime runtimes)

unfoldable pub decode_runtimes : Items → Dict ActiveRuntime → Result (Dict ActiveRuntime)
decode_runtimes [] runtimes = ok runtimes
decode_runtimes ((k, v) ∷ raw) runtimes =
    decode_item k v runtimes >>= λ more. decode_runtimes raw more

abbrev pub is_known : Option ActiveRuntime → Bool
is_known none = false
is_known (some r) = true

abbrev pub state_fields : List Text
state_fields = codes "schema_version" ∷ codes "last_active" ∷ codes "runtimes" ∷ []

unfoldable pub decode_new_state : Items → Result State
unfolding get_item has_fields decode_runtimes
decode_new_state raw = do
  raise_if (not (has_fields state_fields raw)) value_error
  runtimes_value ← get_item (codes "runtimes") raw
  runtimes_raw ← as_items runtimes_value
  raise_if (is_nil runtimes_raw) value_error
  runtimes ← decode_runtimes runtimes_raw []
  last_value ← get_item (codes "last_active") raw
  last_active ← validate_data_volume last_value
  raise_if (not (is_known (Dict.get last_active runtimes))) value_error
  ok (runtimes, last_active)

module _ (hexdigest : Text → Text) where
  unfoldable pub decode_version : Value → Items → Result State
  unfolding decode_old_state decode_new_state equals_int
  decode_version version raw =
      if equals_int version (pos 1) || equals_int version (pos 2)
      then decode_old_state hexdigest (equals_int version (pos 2)) raw
      else if not (equals_int version active_runtime_schema_version)
      then raise value_error
      else decode_new_state raw

  unfoldable pub decode_items : Items → Result State
  unfolding get decode_version is_hashable
  decode_items raw = do
    let schema_version = or_null (get (codes "schema_version") raw)
    raise_if (not (is_hashable schema_version)) type_error
    decode_version schema_version raw

  unfoldable pub decode_active_state : Value → Result State
  unfolding decode_items
  decode_active_state raw = as_items raw >>= decode_items

abbrev optional : Option Text → Value
optional none = null
optional (some t) = str t

-- The document that `json.dump(payload, sort_keys=True)` writes: the keys of each object stand in
-- their order, `runtimes` is sorted by the caller.
unfoldable pub runtime_entries : ActiveRuntime → Entries
runtime_entries value = entry (named (codes "container_id")) (str value.container_id) (
    entry (named (codes "container_name")) (optional value.container_name) (
      entry (named (codes "data_volume")) (str value.data_volume) (
        entry (named (codes "image")) (str value.image)
          (entry (named (codes "network_name")) (optional value.network_name) end))))

unfoldable pub runtimes_entries : Dict ActiveRuntime → Entries
unfolding runtime_entries
runtimes_entries [] = end
runtimes_entries ((key, value) ∷ rest) =
    entry (named key) (dict (runtime_entries value)) (runtimes_entries rest)

unfoldable pub payload : Dict ActiveRuntime → Text → Value
unfolding runtimes_entries
payload runtimes last_active = dict (
    entry (named (codes "last_active")) (str last_active) (
      entry (named (codes "runtimes")) (dict (runtimes_entries (Dict.sorted runtimes)))
        (entry (named (codes "schema_version")) (int active_runtime_schema_version) end)))
