-- ===== src/Config/Choices.antt =====
-- The choices of single settings in `load_config` of config.py.
use localcloud_cli.Prelude.{
  ℕ, Bool, false, not, ◌&&◌, ◌||◌, List, [], ◌∷◌, ◌++◌, Option, none, some, pos, leb, ◌=?◌,
  if◌then◌else◌, map, Result, ok, raise, ◌>>=◌, ◌>>◌, raise_if,
}
use localcloud_cli.Text.{or_blank, Text, codes, ◌==◌, elem, strip, lower, is_empty}
use localcloud_cli.Dict
use localcloud_cli.Dict.{Dict}
use localcloud_cli.Value.{Value, null, bool, int, str, dict, Items, items, get}
use localcloud_cli.State.{ActiveRuntime, Names, validate_data_volume, default_data_volume}
use localcloud_cli.State.Store.{load_active_runtime, Loaded}
use localcloud_cli.Config.Fields.{
  invalid, services, environment_boolean, boolean, port, non_blank_string,
}
use localcloud_cli.Config.Image.{estargz_image}
use localcloud_cli.Config.Ports.{port_range}
use localcloud_cli.Config.Select.{Selected, ConfigSource}
use localcloud_cli.Config.Document.{Diagnostics, recorded}
use localcloud_cli.Config.Settings.{Surroundings}

-- `_env_flag`
unfoldable pub env_flag : Option Text → Bool
unfolding elem
env_flag value =
    elem (lower (strip (or_blank value))) (codes "1" ∷ codes "true" ∷ codes "yes" ∷ codes "on" ∷ [])

-- `raw.get(section) or {}` of a validated section
abbrev pub section_items : Option Value → Items
section_items (some (dict es)) = items es
section_items _ = []

-- `host_value(field, default)`
abbrev pub or_default : Option Value → Value → Value
or_default none default = default
or_default (some null) default = default
or_default (some v) default = v

abbrev pub path_of : Selected → Option Text
path_of none = none
path_of (some (path, source)) = some path

abbrev pub source_of : Selected → Option ConfigSource
source_of none = none
source_of (some (path, source)) = some source

-- The volume whose runtime is looked up: the argument, else the configured one if it is a text.
abbrev pub requested_volume : Option Text → Option Value → Option Text
requested_volume (some v) configured = some v
requested_volume none (some (str t)) = some t
requested_volume none _ = none

abbrev pub Found : Type 0
Found = Option ActiveRuntime × Diagnostics

abbrev pub with_recorded : Diagnostics → Loaded → Found
with_recorded diagnostics (found, codes') = (found, diagnostics ++ map recorded codes')

unfoldable pub find_active :
    Surroundings → Option (Option ActiveRuntime) → Option Text → Diagnostics → Result Found
find_active w (some active) requested diagnostics = ok (active, diagnostics)
find_active w none requested diagnostics =
    load_active_runtime w.hexdigest w.state_file requested >>= λ loaded.
    ok (with_recorded diagnostics loaded)

abbrev pub active_volume : Option ActiveRuntime → Text
active_volume none = default_data_volume
active_volume (some r) = r.data_volume

-- The argument, else the configured volume, else the active runtime's, else the default.
unfoldable pub select_data_volume : Option Text → Option Value → Option ActiveRuntime → Result Text
select_data_volume (some v) configured active = validate_data_volume (str v)
select_data_volume none none active = ok (active_volume active)
select_data_volume none (some null) active = ok (active_volume active)
select_data_volume none (some v) active = validate_data_volume v

-- The argument, else the configured value, else the default.
abbrev pub argument_or : Option Text → Value → Value
argument_or (some t) v = str t
argument_or none v = v

abbrev pub selected_services : Option Value → Option Value → Result (Option (List Text))
selected_services (some v) configured = services v
selected_services none none = ok none
selected_services none (some v) = services v

unfoldable pub data_mode : Value → Result Text
data_mode (str t) =
    if t == codes "persistent" || t == codes "ephemeral" then ok t else raise invalid
data_mode _ = raise invalid

abbrev pub default_image : Text
default_image = codes "agentcloud/localcloud:latest"

-- The active runtime, if it runs on this data volume.
abbrev pub active_for : Text → Option ActiveRuntime → Option ActiveRuntime
active_for volume none = none
active_for volume (some r) = if r.data_volume == volume then some r else none

-- `image or DEFAULT_IMAGE`, of LOCALCLOUD_IMAGE or the active runtime's image.
abbrev pub fallback_image : Option Text → Option ActiveRuntime → Text
fallback_image (some t) active = if is_empty t then default_image else t
fallback_image none none = default_image
fallback_image none (some r) = if is_empty r.image then default_image else r.image

unfoldable pub named_image :
    Option Text → Option Value → Option Text → Option ActiveRuntime → Result Text
unfolding non_blank_string
named_image (some t) configured variable active = non_blank_string (str t)
named_image none none variable active = non_blank_string (str (fallback_image variable active))
named_image none (some null) variable active =
    non_blank_string (str (fallback_image variable active))
named_image none (some v) variable active = non_blank_string v

abbrev pub with_build : Option Bool → Text → Result Text
with_build none image = ok image
with_build (some enabled) image = estargz_image image enabled

abbrev pub asks_embedded_docker : Option Text → Result Bool
asks_embedded_docker none = ok false
asks_embedded_docker (some t) = environment_boolean t

-- `--tls` and `--no-tls` write the variable that decides below.
abbrev pub with_tls : Option Bool → Dict Text → Dict Text
with_tls none variables = variables
with_tls (some enabled) variables =
    Dict.put (codes "LOCALCLOUD_TLS_ENABLED") (if enabled then codes "true" else codes "false")
      variables

abbrev pub with_default : Option Value → Value → Value
with_default none default = default
with_default (some v) default = v

abbrev pub variable_boolean : Option Text → Bool → Result Bool
variable_boolean none b = ok b
variable_boolean (some t) b = environment_boolean t

abbrev pub variable_port : Option Text → ℕ → Result ℕ
variable_port none n = ok n
variable_port (some t) n = port (str t)

-- {5380, *range(5382, 5407), *range(5410, 5415), 5443}, and {53, 80, 443} on the transparent network
unfoldable pub is_reserved_tls_port : Bool → ℕ → Bool
is_reserved_tls_port transparent n =
    n =? 5380
    || (leb 5382 n && leb n 5406)
    || (leb 5410 n && leb n 5414)
    || n =? 5443
    || (transparent && (n =? 53 || n =? 80 || n =? 443))

-- The port and whether TLS is on, after the variables of `host.environment`.
unfoldable pub select_tls : Items → Dict Text → Bool → Result (Bool × ℕ)
unfolding get boolean environment_boolean is_reserved_tls_port
select_tls tls_section variables transparent = do
  configured ← boolean (with_default (get (codes "enabled") tls_section) (bool false))
  configured_port ← port (with_default (get (codes "port") tls_section) (int (pos 5381)))
  enabled ← variable_boolean (Dict.get (codes "LOCALCLOUD_TLS_ENABLED") variables) configured
  tls_port ← variable_port (Dict.get (codes "LOCALCLOUD_TLS_PORT") variables) configured_port
  raise_if (transparent && not enabled) invalid
  raise_if (enabled && is_reserved_tls_port transparent tls_port) invalid
  ok (enabled, tls_port)

-- A stored name, if there is one that is not empty.
abbrev pub stored_or : Option Text → Text → Text
stored_or none default = default
stored_or (some t) default = if is_empty t then default else t

abbrev pub stored_names : Option ActiveRuntime → Names → Names
stored_names none defaults = defaults
stored_names (some r) defaults = record {
  container = stored_or r.container_name defaults.container;
  network = stored_or r.network_name defaults.network;
}

abbrev pub optional_range : Option Text → Option Value → Result (Option (ℕ × ℕ))
optional_range (some t) configured = port_range (str t) >>= λ r. ok (some r)
optional_range none none = ok none
optional_range none (some null) = ok none
optional_range none (some v) = port_range v >>= λ r. ok (some r)
