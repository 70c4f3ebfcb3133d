-- ===== src/Config/Tests.antt =====
-- Runs of the configuration modules at concrete inputs, and their theorems there.
use localcloud_cli.Prelude.{
  ◌≡◌, refl, true, false, [], ◌∷◌, ◌++◌, none, some, ok, pos, all, any, if◌then◌else◌,
  legacy_runtime_selector, invalid_config,
}
use localcloud_cli.Text.{
  codes, ◌==◌, strip, lower, is_space, is_digits, is_digit, is_decimal, digit_value, digits_from,
  elem, starts_with, ends_with, drop_prefix, remove_prefix, remove_suffix, has_char, partition,
}
use localcloud_cli.Text.Numbers.{parse_int, show_int}
use localcloud_cli.Dict
use localcloud_cli.Value.{Value, bool, int, str, dict, entry, end, named, Items, items, get, has}
use localcloud_cli.Value.Equal.{equal}
use localcloud_cli.State.{
  data_volume_pattern, docker_name_pattern, validate_data_volume, default_resource_names,
}
use localcloud_cli.State.Store.{missing, load_active_runtime}
use localcloud_cli.Config.Fields.{
  default_project, port, environment, environment_key_pattern, project_id_pattern, user_pattern,
  memory_pattern, memory_limit, non_blank_string, validate_project, validate_user, docker_name,
  boolean, docker_access_mode, environment_boolean, services, auto,
}
use localcloud_cli.Config.Image.{estargz_image, is_estargz_image, image_tag, estargz_tag_suffix}
use localcloud_cli.Config.Image.Builds.{IsTagged, estargz_image-estargz_image}
use localcloud_cli.Config.Ports.{port_range, service_ports, mysql_port}
use localcloud_cli.Config.Select.{
  absent, file, Files, select_project, select_config_path, local, remembered,
}
use localcloud_cli.Config.Select.{config, default}
use localcloud_cli.Config.Catalog.{
  effective_service_catalog, resolve_docker_socket, enabled_services,
}
use localcloud_cli.Config.Select.Priority.{
  select_project-first_of, first_of, from_flag, from_document, from_repository, only_if,
}
use localcloud_cli.Config.Select.Search.{select_config_path-IsFound}
use localcloud_cli.Config.Document.{validate_config_document, skipped}
use localcloud_cli.Config.Document.Skipping.{validate_config_document-skip}
use localcloud_cli.Config.Document.Recording.{validate_config_document-Extends, Extends}
use localcloud_cli.Config.Settings.{Surroundings, Arguments, LocalCloudConfig}
use localcloud_cli.Config.Load.{load_config}
use localcloud_cli.Config.Load.WellFormed.{load_config-IsWellFormed, IsWellFormed}

-- What a run of the modules computes through.
runs : Unit {0}
unfolding codes all any strip is_space starts_with ends_with drop_prefix remove_prefix remove_suffix
    has_char partition elem ◌==◌ lower is_digits is_digit is_decimal digit_value digits_from
    parse_int show_int data_volume_pattern docker_name_pattern validate_data_volume
    default_resource_names Dict.get Dict.put get has equal load_active_runtime port environment
    environment_key_pattern project_id_pattern user_pattern memory_pattern memory_limit
    non_blank_string validate_project validate_user docker_name boolean docker_access_mode
    environment_boolean services estargz_image is_estargz_image image_tag port_range service_ports
    mysql_port select_project select_config_path validate_config_document load_config
    effective_service_catalog resolve_docker_socket enabled_services
runs = tt

range_of_text : port_range (str (codes " 6000-6100 ")) ≡ ok (6000, 6100)
unfolding runs
range_of_text = refl

abbrev debug : Value
debug = dict (entry (named (codes "LOCALCLOUD_DEBUG")) (bool true) end)

debug_variables : environment debug ≡ ok ((codes "LOCALCLOUD_DEBUG", codes "true") ∷ [])
unfolding runs
debug_variables = refl

cloud_latest : IsTagged (codes "registry:5000/cloud") (codes "latest")
unfolding runs
cloud_latest = record {
  repository_digest = refl;
  tag_digest = refl;
  tag_colon = refl;
  tag_slash = refl;
  image_id = refl;
}

latest_plain : ends_with (codes "latest") (codes "-estargz") ≡ false
unfolding runs
latest_plain = refl

estargz_image-estargz_image_example :
    let image = codes "registry:5000/cloud" ++ b':' ∷ codes "latest" in
    let build = codes "registry:5000/cloud" ++ (b':' ∷ (codes "latest" ++ estargz_tag_suffix)) in
    (estargz_image image true ≡ ok build)
    × (is_estargz_image build ≡ true)
    × (estargz_image build false ≡ ok image)
estargz_image-estargz_image_example =
    estargz_image-estargz_image (codes "registry:5000/cloud") (codes "latest") cloud_latest
      latest_plain

-- A remembered document does not outrank the repository.
select_project-first_of_example :
    select_project none
      (str (codes "shared-project"))
      (some remembered)
      true
      (some (codes "this-project"))
    ≡ first_of
        (from_flag none
          ∷ only_if false (from_document (str (codes "shared-project")) config)
          ∷ only_if true (from_repository (some (codes "this-project")))
          ∷ from_document (str (codes "shared-project")) default
          ∷ [])
        (ok (default_project, default))
select_project-first_of_example =
    select_project-first_of none (str (codes "shared-project")) (some remembered) true
      (some (codes "this-project"))

-- One file, and paths as they are.
abbrev one_file : Files
one_file = record {
  kind = λ path. if path == codes "/work/localcloud.yaml" then file else absent;
  absolute = λ base path. path;
  resolve = λ path. path;
}

local_found :
    select_config_path one_file
      (codes "/work")
      (codes "/work/localcloud.yaml")
      none
      none
      (some (codes "/gone"))
      (codes "/home")
    ≡ ok (some (codes "/work/localcloud.yaml", local))
unfolding runs
local_found = refl

select_config_path-IsFound_example : one_file.kind (codes "/work/localcloud.yaml") ≡ file
select_config_path-IsFound_example =
    select_config_path-IsFound one_file (λ path. refl) (codes "/work")
      (codes "/work/localcloud.yaml") none none (some (codes "/gone")) (codes "/home")
      (some (codes "/work/localcloud.yaml", local)) local_found

-- A document with an unknown field and a legacy one.
abbrev stale : Value
stale = dict (
    entry (named (codes "instance")) (str (codes "old")) (
      entry (named (codes "context")) (dict (entry (named (codes "color")) (int (pos 3)) end)) end))

abbrev items_of : Value → Items
items_of (dict es) = items es
items_of v = []

skipped_all :
    validate_config_document true (items_of stale) []
    ≡ ok (skipped legacy_runtime_selector ∷ skipped invalid_config ∷ skipped invalid_config ∷ [])
unfolding runs
skipped_all = refl

validate_config_document-Extends_example :
    Extends true []
      (skipped legacy_runtime_selector ∷ skipped invalid_config ∷ skipped invalid_config ∷ [])
validate_config_document-Extends_example =
    validate_config_document-Extends true (items_of stale) [] _ skipped_all

-- A document that asks for a project, an image, a range of ports and TLS.
abbrev asked : Value
asked = dict (
    entry (named (codes "version")) (int (pos 1)) (
      entry (named (codes "context"))
        (dict (entry (named (codes "project")) (str (codes "demo-project")) end))
        (entry (named (codes "host"))
          (dict (
            entry (named (codes "port_range")) (str (codes "6000-6100"))
              (entry (named (codes "environment")) debug end)))
          (entry (named (codes "tls"))
            (dict (
              entry (named (codes "enabled")) (bool true)
                (entry (named (codes "port")) (int (pos 5381)) end)))
            end))))

asked_accepted : validate_config_document false (items_of asked) [] ≡ ok []
unfolding runs
asked_accepted = refl

validate_config_document-skip_example : validate_config_document true (items_of asked) [] ≡ ok []
validate_config_document-skip_example =
    validate_config_document-skip (items_of asked) [] [] asked_accepted

abbrev pub surroundings : Surroundings
surroundings = record {
  files = one_file;
  base = codes "/work";
  local_path = codes "/work/localcloud.yaml";
  home_path = codes "/home";
  variable = λ name. none;
  read = λ path. ok (items_of asked);
  packaged =
      (
        codes "storage",
        entry (named (codes "defaultEnabled")) (bool true)
            (entry (named (codes "port")) (int (pos 5383)) end),
      )
      ∷ [];
  packaged_docker_access = str (codes "auto");
  git_project = none;
  hexdigest = λ t. codes "0123456789abcdef";
  state_file = missing;
}

abbrev pub no_arguments : Arguments
no_arguments = record {
  explicit = none;
  remembered = none;
  data_volume = none;
  project = none;
  user = none;
  container_name = none;
  network_name = none;
  tls = none;
  memory = none;
  image = none;
  estargz = none;
  services = none;
  active = none;
  active_diagnostics = [];
  skip_validation = false;
  strict_port_validation = false;
  local_only = true;
  port_range = none;
  project_from_git = true;
}

abbrev pub settings : LocalCloudConfig
settings = record {
  data_volume = codes "localcloud-data";
  config_path = some (codes "/work/localcloud.yaml");
  project = codes "demo-project";
  project_source = config;
  user = codes "local-developer";
  services = none;
  effective_services = codes "storage" ∷ [];
  data_setting = codes "persistent";
  image = codes "agentcloud/localcloud:latest";
  memory = codes "4g";
  docker_socket_mode = auto;
  docker_socket = false;
  transparent_network = false;
  environment = (codes "LOCALCLOUD_DEBUG", codes "true") ∷ [];
  tls_enabled = true;
  tls_port = 5381;
  strict_port_validation = false;
  local_only = true;
  container_name = codes "localcloud";
  network_name = codes "localcloud";
  diagnostics = [];
  mysql_port = none;
  service_ports = pos 5383 ∷ [];
  port_range = some (6000, 6100);
}

pub loaded : load_config surroundings no_arguments ≡ ok settings
unfolding runs
loaded = refl

load_config-IsWellFormed_example : IsWellFormed settings
load_config-IsWellFormed_example =
    load_config-IsWellFormed surroundings tt no_arguments settings tt loaded
