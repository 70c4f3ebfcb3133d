-- ===== src/Config/Document.antt =====
-- `_validate_config_document` of config.py and the checks that it calls. The reader refuses field
-- names that are no texts, so sorting the unknown names cannot fail.
pub mod Skipping
pub mod Recording
use localcloud_cli.Prelude.{
  Bool, true, false, not, ◌&&◌, ◌||◌, List, [], ◌∷◌, ◌++◌, Option, none, some, ℤ, pos, eq_ℤ, all,
  any, if◌then◌else◌, Exception, Code, Result, ok, raise, host_error, invalid_config,
  removed_flat_config, legacy_runtime_selector, ◌>>=◌, ◌>>◌, raise_if,
}
use localcloud_cli.Text.{Text, codes, ◌==◌, elem}
use localcloud_cli.Value.{
  Value, null, bool, int, float, str, other, list, dict, Key, named, unnamed, Items, items, get,
  has, or_null, is_one_of, Entries,
}
use localcloud_cli.Config.Fields.{invalid}

-- An entry of the diagnostics: an error that was recorded, or a check that was skipped.
pub data Diagnostic : Type 0 where
  recorded skipped : Code → Diagnostic

abbrev pub Diagnostics : Type 0
Diagnostics = List Diagnostic

abbrev pub config_fields : List Text
config_fields =
    codes "version"
    ∷ codes "context"
    ∷ codes "host"
    ∷ codes "tls"
    ∷ codes "mcp"
    ∷ codes "updater"
    ∷ codes "server"
    ∷ codes "services"
    ∷ codes "infrastructure"
    ∷ codes "observability"
    ∷ []

abbrev pub host_config_fields : List Text
host_config_fields =
    codes "data_volume"
    ∷ codes "backup_dir"
    ∷ codes "seed"
    ∷ codes "data"
    ∷ codes "image"
    ∷ codes "memory"
    ∷ codes "docker_socket"
    ∷ codes "transparent_network"
    ∷ codes "environment"
    ∷ codes "container_name"
    ∷ codes "network_name"
    ∷ codes "port_range"
    ∷ []

abbrev pub context_fields : List Text
context_fields = codes "project" ∷ codes "user" ∷ []

abbrev pub tls_fields : List Text
tls_fields = codes "enabled" ∷ codes "port" ∷ codes "certificate" ∷ codes "private_key" ∷ []

abbrev pub mcp_fields : List Text
mcp_fields = codes "write" ∷ codes "destructive" ∷ codes "allow_remote" ∷ []

abbrev pub services_fields : List Text
services_fields = codes "enabled" ∷ codes "catalog" ∷ []

-- bool(set(d) - fields)
unfoldable pub has_unknown : List Text → Items → Bool
unfolding all elem
has_unknown fields es = not (all (λ (e : Key × Value). is_one_of fields e.0) es)

-- Raise, or record and go on with `skip`.
unfoldable pub enforce_or_record : Bool → Bool → Diagnostics → Result Diagnostics
enforce_or_record skip violated diagnostics =
    if not violated
    then ok diagnostics
    else if skip
    then ok (diagnostics ++ skipped invalid_config ∷ [])
    else raise invalid

unfoldable pub reject_or_record : Bool → Result (Unit {0}) → Diagnostics → Result Diagnostics
reject_or_record skip (ok u) diagnostics = ok diagnostics
reject_or_record skip (raise (host_error c)) diagnostics =
    if skip then ok (diagnostics ++ skipped c ∷ []) else raise (host_error c)
reject_or_record skip (raise e) diagnostics = raise e

abbrev pub legacy_config_fields : List Text
legacy_config_fields = codes "instance" ∷ codes "volume_name" ∷ []

unfoldable pub reject_legacy_config : Items → Result (Unit {0})
unfolding any has
reject_legacy_config raw =
    raise_if (any (λ k. has k raw) legacy_config_fields) (host_error legacy_runtime_selector)

-- A `services` that is an object is the present schema's.
abbrev pub is_flat : Text → Option Value → Bool
is_flat k none = false
is_flat k (some (dict es)) = not (k == codes "services")
is_flat k (some v) = true

abbrev pub flat_fields : List Text
flat_fields = codes "project" ∷ codes "user" ∷ codes "services" ∷ host_config_fields

unfoldable pub reject_flat_config : Items → Result (Unit {0})
unfolding any get
reject_flat_config raw =
    raise_if (any (λ k. is_flat k (get k raw)) flat_fields) (host_error removed_flat_config)

abbrev pub is_named : Key → Bool
is_named (named t) = true
is_named (unnamed t) = false

-- `type(v) is not int or v != 1`
abbrev pub is_wrong_version : Option Value → Bool
is_wrong_version none = false
is_wrong_version (some (int n)) = not (eq_ℤ n (pos 1))
is_wrong_version (some v) = true

abbrev pub is_null_field : Option Value → Bool
is_null_field (some null) = true
is_null_field _ = false

abbrev pub is_not_boolean : Option Value → Bool
is_not_boolean none = false
is_not_boolean (some (bool b)) = false
is_not_boolean (some v) = true

abbrev pub is_not_object : Option Value → Bool
is_not_object none = false
is_not_object (some (dict es)) = false
is_not_object (some v) = true

-- `host` may be null.
abbrev pub host_value : Option Value → Option Value
host_value (some null) = none
host_value o = o

-- `server` and `infrastructure`: an object, if anything.
unfoldable pub object_field : Text → Items → Result (Unit {0})
unfolding get
object_field k raw = raise_if (is_not_object (get k raw)) invalid

unfoldable pub named_fields : Items → Result (Unit {0})
unfolding all
named_fields raw = raise_if (not (all (λ (e : Key × Value). is_named e.0) raw)) invalid

module _ (skip : Bool) where
  -- An object section: its unknown fields, then a check of its own.
  unfoldable pub object_section :
      List Text → (Items → Bool) → Option Value → Diagnostics → Result Diagnostics
  unfolding has_unknown enforce_or_record
  object_section fields broken none diagnostics = ok diagnostics
  object_section fields broken (some (dict es)) diagnostics = do
    more ← enforce_or_record skip (has_unknown fields (items es)) diagnostics
    raise_if (broken (items es)) invalid
    ok more
  object_section fields broken (some v) diagnostics = raise invalid

  unfoldable pub known_fields : Items → Diagnostics → Result Diagnostics
  unfolding has_unknown enforce_or_record
  known_fields raw = enforce_or_record skip (has_unknown config_fields raw)

  unfoldable pub version : Items → Diagnostics → Result Diagnostics
  unfolding get enforce_or_record
  version raw = enforce_or_record skip (is_wrong_version (get (codes "version") raw))

  unfoldable pub context : Items → Diagnostics → Result Diagnostics
  unfolding object_section
  context raw =
      object_section context_fields (λ es. is_null_field (get (codes "project") es))
        (get (codes "context") raw)

  unfoldable pub host : Items → Diagnostics → Result Diagnostics
  unfolding object_section
  host raw =
      object_section host_config_fields (λ es. is_null_field (get (codes "docker_socket") es))
        (host_value (get (codes "host") raw))

  unfoldable pub tls : Items → Diagnostics → Result Diagnostics
  unfolding object_section
  tls raw =
      object_section tls_fields (λ es. is_not_boolean (get (codes "enabled") es))
        (get (codes "tls") raw)

  unfoldable pub mcp : Items → Diagnostics → Result Diagnostics
  unfolding object_section any
  mcp raw =
      object_section mcp_fields (λ es. any (λ k. is_not_boolean (get k es)) mcp_fields)
        (get (codes "mcp") raw)

  unfoldable pub services : Items → Diagnostics → Result Diagnostics
  unfolding object_section
  services raw =
      object_section services_fields
        (λ es. is_null_field (get (codes "enabled") es) || is_not_object (get (codes "catalog") es))
        (get (codes "services") raw)

  unfoldable pub validate_config_document : Items → Diagnostics → Result Diagnostics
  unfolding object_section known_fields version context host tls mcp services object_field
      named_fields reject_or_record reject_legacy_config reject_flat_config
  validate_config_document raw diagnostics = do
    named_fields raw
    d1 ← reject_or_record skip (reject_legacy_config raw) diagnostics
    d2 ← reject_or_record skip (reject_flat_config raw) d1
    d3 ← known_fields raw d2
    d4 ← version raw d3
    d5 ← context raw d4
    d6 ← host raw d5
    d7 ← tls raw d6
    d8 ← mcp raw d7
    object_field (codes "server") raw
    d9 ← services raw d8
    object_field (codes "infrastructure") raw
    ok d9
