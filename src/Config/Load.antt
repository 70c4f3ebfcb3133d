-- ===== src/Config/Load.antt =====
-- `load_config` of config.py: the choice of every setting between the command line, the document,
-- the environment, the active runtime and the defaults.
pub mod WellFormed
use localcloud_cli.Prelude.{
  ℕ, ℤ, Bool, true, false, not, ◌&&◌, ◌||◌, List, [], ◌∷◌, ◌++◌, Option, none, some, pos, leb, ◌=?◌,
  if◌then◌else◌, map, Code, Result, ok, raise, ◌>>=◌, ◌>>◌, raise_if,
}
use localcloud_cli.Text.{Text, codes, ◌==◌, elem, strip, lower, is_empty}
use localcloud_cli.Dict
use localcloud_cli.Dict.{Dict}
use localcloud_cli.Value.{
  Value, null, bool, int, str, dict, Items, items, get, or_null, Entries, end,
}
use localcloud_cli.State.{
  ActiveRuntime, Names, validate_data_volume, default_resource_names, default_data_volume,
}
use localcloud_cli.State.Store.{File, load_active_runtime, Loaded}
use localcloud_cli.Config.Fields.{
  invalid, validate_user, services, DockerAccessMode, docker_access_mode, environment_boolean,
  boolean, port, docker_name, non_blank_string, memory_limit, environment, default_user,
}
use localcloud_cli.Config.Image.{estargz_image}
use localcloud_cli.Config.Catalog.{
  Catalog, effective_service_catalog, enabled_services, resolve_docker_socket,
}
use localcloud_cli.Config.Ports.{service_ports, mysql_port, port_range}
use localcloud_cli.Config.Select.{
  Files, Selected, ConfigSource, ProjectSource, select_config_path, select_project,
}
use localcloud_cli.Config.Document.{Diagnostic, Diagnostics, recorded, validate_config_document}
use localcloud_cli.Config.Settings.{Surroundings, Arguments, LocalCloudConfig}
use localcloud_cli.Config.Choices.{
  env_flag, section_items, or_default, path_of, source_of, requested_volume, Found, with_recorded,
  find_active, active_volume, select_data_volume, argument_or, selected_services, data_mode,
  default_image, active_for, fallback_image, named_image, with_build, asks_embedded_docker,
  with_tls, with_default, variable_boolean, variable_port, is_reserved_tls_port, select_tls,
  stored_or, stored_names, optional_range,
}

-- The image, and its other build where that is asked for.
unfoldable pub select_image :
    Arguments → Option Value → Option Text → Option ActiveRuntime → Result Text
unfolding named_image estargz_image
select_image args configured variable active =
    named_image args.image configured variable active >>= with_build args.estargz

-- The mode of the Docker access and whether the socket is mounted.
unfoldable pub select_docker :
    Surroundings → Option Value → Option (List Text) → Catalog → Result (DockerAccessMode × Bool)
unfolding docker_access_mode resolve_docker_socket
select_docker w configured chosen catalog = do
  mode ← docker_access_mode (
      argument_or (w.variable (codes "LOCALCLOUD_DOCKER_ACCESS"))
        (or_default configured w.packaged_docker_access))
  docker ← resolve_docker_socket mode chosen catalog
  ok (mode, docker)

-- The variables of `host.environment`, checked against the Docker access, with those of `--tls`.
unfoldable pub select_environment : Arguments → Option Value → Bool → Result (Dict Text)
unfolding environment environment_boolean Dict.get Dict.put
select_environment args configured docker = do
  variables ← environment (or_default configured (dict end))
  embedded ← asks_embedded_docker (Dict.get (codes "LOCALCLOUD_RUNTIME_EMBEDDED_DOCKER") variables)
  raise_if (embedded && not docker) invalid
  ok (with_tls args.tls variables)

-- The names of the container and the network: the arguments, else the configured ones, else those of
-- the runtime that runs on the data volume, else the default ones.
unfoldable pub select_names :
    Surroundings → Arguments → Items → Text → Option ActiveRuntime → Result Names
unfolding default_resource_names docker_name get
select_names w args host volume active = do
  defaults ← default_resource_names w.hexdigest volume
  let names = stored_names (active_for volume active) defaults
  container ← docker_name (
      argument_or args.container_name
        (or_default (get (codes "container_name") host) (str names.container)))
  network ← docker_name (
      argument_or args.network_name
        (or_default (get (codes "network_name") host) (str names.network)))
  ok (record { container = container; network = network })

-- The settings, from a document that was read and validated.
unfoldable pub select_settings :
    Surroundings → Arguments → Selected → Items → Diagnostics → Result LocalCloudConfig
unfolding get find_active select_data_volume data_mode select_image select_docker select_environment
    select_tls select_names
select_settings w args selected raw diagnostics = do
  let context = section_items (get (codes "context") raw)
  let host = section_items (get (codes "host") raw)
  let section = section_items (get (codes "services") raw)
  let configured_volume = get (codes "data_volume") host
  found ←
      find_active w args.active (requested_volume args.data_volume configured_volume) diagnostics
  volume ← select_data_volume args.data_volume configured_volume found.0
  project ←
      select_project args.project (or_null (get (codes "project") context)) (source_of selected)
        args.project_from_git w.git_project
  user ←
      validate_user
        (argument_or args.user (or_default (get (codes "user") context) (str default_user)))
  chosen ← selected_services args.services (get (codes "enabled") section)
  catalog ← effective_service_catalog w.packaged section
  data' ← data_mode (or_default (get (codes "data") host) (str (codes "persistent")))
  image ←
      select_image args (get (codes "image") host) (w.variable (codes "LOCALCLOUD_IMAGE"))
        (active_for volume found.0)
  memory ←
      memory_limit
        (argument_or args.memory (or_default (get (codes "memory") host) (str (codes "4g"))))
  access ← select_docker w (get (codes "docker_socket") host) chosen catalog
  transparent ← boolean (or_default (get (codes "transparent_network") host) (bool false))
  variables ← select_environment args (get (codes "environment") host) access.1
  let effective = enabled_services chosen catalog
  mysql ← mysql_port catalog effective variables
  range ← optional_range args.port_range (get (codes "port_range") host)
  tls ← select_tls (section_items (get (codes "tls") raw)) variables transparent
  names ← select_names w args host volume found.0
  ok (record {
    data_volume = volume;
    config_path = path_of selected;
    project = project.0;
    project_source = project.1;
    user = user;
    services = chosen;
    effective_services = effective;
    data_setting = data';
    image = image;
    memory = memory;
    docker_socket_mode = access.0;
    docker_socket = access.1;
    transparent_network = transparent;
    environment = variables;
    tls_enabled = tls.0;
    tls_port = tls.1;
    strict_port_validation = args.strict_port_validation;
    local_only = args.local_only;
    container_name = names.container;
    network_name = names.network;
    diagnostics = found.1;
    mysql_port = mysql;
    service_ports = service_ports catalog effective;
    port_range = range;
  })

unfoldable pub load_config : Surroundings → Arguments → Result LocalCloudConfig
unfolding env_flag select_settings
load_config w args = do
  selected ←
      select_config_path w.files w.base w.local_path args.explicit
        (w.variable (codes "LOCALCLOUD_CONFIG")) args.remembered w.home_path
  raw ← w.read (path_of selected)
  let skip =
      args.skip_validation || env_flag (w.variable (codes "LOCALCLOUD_SKIP_CONFIG_VALIDATION"))
  diagnostics ← validate_config_document skip raw args.active_diagnostics
  select_settings w args selected raw diagnostics
