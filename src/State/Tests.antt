-- ===== src/State/Tests.antt =====
-- Runs of the state module at concrete inputs, and its theorems there.
use localcloud_cli.Prelude.{
  ◌≡◌, pos, inl, refl, all, true, false, none, some, Option, ok, raise, type_error, [], ◌∷◌, ◌↔◌,
  invalid_active_runtime, recursion_error, if◌then◌else◌,
}
use localcloud_cli.Text.{Text, codes, ◌==◌, strip, is_space, starts_with, remove_prefix, elem}
use localcloud_cli.Text.Order.{leb_text}
use localcloud_cli.Dict
use localcloud_cli.Value.{
  Value, Entries, bool, int, has_fields, equals_int, str, dict, list, nil, entry, end, named, items,
  get, is_hashable,
}
use localcloud_cli.State.{
  ActiveRuntime, data_volume_pattern, docker_name_pattern, validate_data_volume,
  default_resource_names, base_name, non_blank_string, docker_name, active_runtime_schema_version,
}
use localcloud_cli.State.Naming.{is_hex}
use localcloud_cli.State.Codec.{decode_active_state, payload}
use localcloud_cli.State.Codec.RoundTrip.{IsState, IsStripped, runtime, decode-payload}
use localcloud_cli.State.Codec.Sound.{decode-IsState}
use localcloud_cli.State.Codec.Migration.{IsFirstSchema, decode-first_schema}
use localcloud_cli.State.Store.{
  missing, not_json, too_nested, json, Home, Faults, no_faults, Loaded, load_active_runtime,
  save_active_runtime, clear_active_runtime, checked_runtime, existing_runtimes,
  write_active_state_file,
}
use localcloud_cli.State.Store.Effects.{IsAtomic, write-IsAtomic, load_total}
use localcloud_cli.State.Store.Save.{load-save}
use localcloud_cli.State.Store.Clear.{load-clear}
use localcloud_cli.State.Store.Invariant.{here, next, save, clear, load-Reach}
use localcloud_cli.State.Store.Unhandled.{unhashable_schema_version}

-- A digest for the tests.
abbrev digest : Text → Text
digest t = codes "0123456789abcdef"

digest-hex : (t : Text) → all is_hex (digest t) ≡ true
unfolding codes all
digest-hex t = refl

-- What a run of the field checks and of the decoder computes through.
runs : Unit {0}
unfolding codes all strip is_space starts_with remove_prefix elem ◌==◌ data_volume_pattern
    docker_name_pattern validate_data_volume default_resource_names non_blank_string docker_name
    decode_active_state payload leb_text Dict.get Dict.put Dict.sorted
runs = tt

names_of_default :
    default_resource_names digest (codes "localcloud-data")
    ≡ ok (record { container = codes "localcloud"; network = codes "localcloud" })
unfolding runs
names_of_default = refl

names_of_suffix :
    default_resource_names digest (codes " localcloud-data-two ")
    ≡ ok (record { container = codes "localcloud-two"; network = codes "localcloud-two" })
unfolding runs
names_of_suffix = refl

names_of_other :
    default_resource_names digest (codes "mine")
    ≡ ok (record {
      container = codes "localcloud-volume-0123456789ab";
      network = codes "localcloud-volume-0123456789ab";
    })
unfolding runs
names_of_other = refl

-- A runtime as a caller hands it over, and as it is stored.
abbrev two : ActiveRuntime
two = record {
  schema_version = active_runtime_schema_version;
  data_volume = codes "localcloud-data-two";
  image = codes " img ";
  container_id = codes "c2";
  container_name = none;
  network_name = some (codes "net");
}

abbrev stored_two : ActiveRuntime
stored_two =
    runtime (codes "localcloud-data-two") (codes "img") (codes "c2") (codes "localcloud-two")
      (codes "net")

checked_two : checked_runtime digest two ≡ ok stored_two
unfolding runs checked_runtime
checked_two = refl

abbrev one : ActiveRuntime
one =
    runtime (codes "localcloud-data") (codes "img") (codes "c1") (codes "localcloud")
      (codes "localcloud")

-- {"schema_version": 1, "data_volume": …, "image": …, "container_id": …}
abbrev first_schema : (volume image id : Text) → Value
first_schema volume image id = dict (
    entry (named (codes "schema_version")) (int (pos 1)) (
      entry (named (codes "data_volume")) (str volume) (
        entry (named (codes "image")) (str image)
          (entry (named (codes "container_id")) (str id) end))))

-- A file of the first schema, and what it decodes to.
abbrev old_home : Home
old_home = record {
  active = json (first_schema (codes "localcloud-data") (codes "img") (codes "c1"));
  temporaries = 0;
}

old_decoded :
    decode_active_state digest (first_schema (codes "localcloud-data") (codes "img") (codes "c1"))
    ≡ ok ((codes "localcloud-data", one) ∷ [], codes "localcloud-data")
unfolding runs
old_decoded = refl

img-IsStripped : IsStripped (codes "img")
unfolding runs
img-IsStripped = record { same = refl; filled = refl }

id-IsStripped : IsStripped (codes "c1")
unfolding runs
id-IsStripped = record { same = refl; filled = refl }

default-pattern : data_volume_pattern (codes "localcloud-data") ≡ true
unfolding runs
default-pattern = refl

-- A document of the first schema with its keys in another order, the version as a Boolean and blanks
-- round the texts.
abbrev first_document : Entries
first_document = entry (named (codes "container_id")) (str (codes " c1")) (
    entry (named (codes "image")) (str (codes "img ")) (
      entry (named (codes "data_volume")) (str (codes " localcloud-data "))
        (entry (named (codes "schema_version")) (bool true) end)))

first_document-IsFirstSchema :
    IsFirstSchema (items first_document) (codes " localcloud-data ") (codes "img ") (codes " c1")
unfolding runs get has_fields equals_int
first_document-IsFirstSchema = record {
  fields = refl;
  given_version = bool true;
  schema_version = refl;
  is_one = refl;
  data_volume = refl;
  image = refl;
  container_id = refl;
  volume_pattern = refl;
  image_filled = refl;
  id_filled = refl;
}

decode-first_schema_example :
    let volume = strip (codes " localcloud-data ") in
    let name = base_name digest volume in
    decode_active_state digest (dict first_document)
    ≡ ok (
      (volume, runtime volume (strip (codes "img ")) (strip (codes " c1")) name name) ∷ [],
      volume,
    )
decode-first_schema_example =
    decode-first_schema digest digest-hex first_document _ _ _ first_document-IsFirstSchema

decode-IsState_example : IsState ((codes "localcloud-data", one) ∷ [], codes "localcloud-data")
decode-IsState_example = decode-IsState digest _ _ old_decoded

decode-payload_example :
    decode_active_state digest
      (payload ((codes "localcloud-data", one) ∷ []) (codes "localcloud-data"))
    ≡ ok (Dict.sorted ((codes "localcloud-data", one) ∷ []), codes "localcloud-data")
decode-payload_example =
    decode-payload digest ((codes "localcloud-data", one) ∷ []) (codes "localcloud-data")
      (decode-IsState digest _ _ old_decoded)

write-IsAtomic_example :
    IsAtomic no_faults
      (str (codes "x"))
      old_home
      (write_active_state_file no_faults (str (codes "x")) old_home).0
      (write_active_state_file no_faults (str (codes "x")) old_home).1
write-IsAtomic_example = write-IsAtomic no_faults (str (codes "x")) old_home

not_json-flat : ¬ (not_json ≡ too_nested)
not_json-flat h = cc

-- The error of the JSON reader is not handled.
load_nested : load_active_runtime digest too_nested none ≡ raise recursion_error
unfolding load_active_runtime
load_nested = refl

load_total_example : (l : Loaded) × (load_active_runtime digest not_json (some (codes "v")) ≡ ok l)
load_total_example = load_total digest not_json (some (codes "v")) not_json-flat

old_existing : existing_runtimes digest old_home.active ≡ ok ((codes "localcloud-data", one) ∷ [])
unfolding existing_runtimes
old_existing = rw old_decoded

load-save_example :
    let (result, after) = save_active_runtime digest no_faults two old_home in
    (result ≡ ok tt)
    × (load_active_runtime digest after.active none ≡ ok (some stored_two, []))
    × ((v : Text)
        → data_volume_pattern v ≡ true
        → load_active_runtime digest after.active (some v)
          ≡ ok (
            (if stored_two.data_volume == v
                then some stored_two
                else Dict.get v ((codes "localcloud-data", one) ∷ [])),
            [],
          ))
load-save_example =
    load-save digest two stored_two old_home ((codes "localcloud-data", one) ∷ []) checked_two
      old_existing

load-clear_example :
    load_active_runtime digest
      (clear_active_runtime digest no_faults (some (codes "localcloud-data")) old_home).1.active
      (some (codes "localcloud-data"))
    ≡ ok (
      (if codes "localcloud-data" == codes "localcloud-data"
          then none
          else Dict.get (codes "localcloud-data") ((codes "localcloud-data", one) ∷ [])),
      [],
    )
load-clear_example =
    load-clear digest (codes "localcloud-data") _ old_home _ refl old_decoded default-pattern
      (codes "localcloud-data") default-pattern

-- A save whose directory sync fails, and a clear, from an absent file.
abbrev sync_fails : Faults
sync_fails = record no_faults { fsync_directory = true }

abbrev start : Home
start = record { active = missing; temporaries = 0 }

abbrev end_home : Home
end_home =
    (clear_active_runtime digest no_faults (some (codes "localcloud-data"))
      (save_active_runtime digest sync_fails two start).1).1

load-Reach_example :
    (o : Option ActiveRuntime) × (load_active_runtime digest end_home.active none ≡ ok (o, []))
    × ((o ≡ none) ↔ (end_home.active ≡ missing))
load-Reach_example =
    load-Reach digest start end_home
      (next (next here (save sync_fails two)) (clear no_faults (some (codes "localcloud-data"))))
      (inl refl)

-- {"schema_version": []}
abbrev bad_home : Home
bad_home = record {
  active = json (dict (entry (named (codes "schema_version")) (list nil) end));
  temporaries = 0;
}

bad_version :
    get (codes "schema_version") (items (entry (named (codes "schema_version")) (list nil) end))
    ≡ some (list nil)
unfolding runs get
bad_version = refl

list-unhashable : is_hashable (list nil) ≡ false
unfolding is_hashable
list-unhashable = refl

unhashable_schema_version_example :
    (load_active_runtime digest bad_home.active none ≡ ok (none, invalid_active_runtime ∷ []))
    × (save_active_runtime digest no_faults two bad_home ≡ (raise type_error, bad_home))
    × (clear_active_runtime digest no_faults (some (codes "v")) bad_home
        ≡ (raise type_error, bad_home))
unhashable_schema_version_example =
    unhashable_schema_version digest (entry (named (codes "schema_version")) (list nil) end)
      (list nil) bad_home no_faults refl bad_version list-unhashable refl refl two stored_two
      (codes "v") none checked_two
