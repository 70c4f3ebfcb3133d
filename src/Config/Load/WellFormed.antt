-- ===== src/Config/Load/WellFormed.antt =====
-- Settings that `load_config` returns fit together.
pub mod Tls
pub mod Volume
pub mod Host
use localcloud_cli.Prelude.{
  ℕ, ◌≡◌, refl, Bool, true, false, not, ◌&&◌, ◌||◌, Option, none, some, pos, arith, All, all, ok,
  raise_if, ◌>>=◌, Returns, Returns-ok, Returns-raise, Returns-if, Returns-bind, Returns-after,
}
use localcloud_cli.Text.{Text, codes, ◌==◌, elem, starts_with, drop_prefix}
use localcloud_cli.Dict
use localcloud_cli.Dict.{Dict}
use localcloud_cli.Dict.Laws.{put-All}
use localcloud_cli.Value.{Value, null, bool, int, float, str, other, list, dict, Items, get}
use localcloud_cli.State.{
  Names, docker_name_pattern, default_resource_names, data_volume_pattern, default_data_volume,
  validate_data_volume,
}
use localcloud_cli.State.Naming.{validate_data_volume-pattern}
use localcloud_cli.State.Store.Found.{IsChecked, load_active_runtime-IsChecked}
use localcloud_cli.Config.Fields.{
  invalid, user_pattern, memory_pattern, environment, boolean, port, environment_key_pattern,
}
use localcloud_cli.Config.Fields.Bounds.{
  IsPort, port-Returns, IsUserVariable, environment-IsUserVariable, docker_name-Returns,
  validate_user-Returns, memory_limit-Returns, passed,
}
use localcloud_cli.Config.Ports.{port_range, mysql_port}
use localcloud_cli.Config.Ports.Ranges.{IsUserRange, port_range-IsUserRange}
use localcloud_cli.Config.Select.{Selected, select_config_path}
use localcloud_cli.Config.Select.Priority.{
  IsProject, IsSuggestion, select_project-IsSelectedProject,
}
use localcloud_cli.Config.Document.{Diagnostics, validate_config_document}
use localcloud_cli.State.{ActiveRuntime}
use localcloud_cli.Config.Settings.{Surroundings, Arguments, LocalCloudConfig}
use localcloud_cli.Config.Choices.{
  select_tls, variable_boolean, variable_port, with_default, is_reserved_tls_port, with_tls,
  optional_range, data_mode, section_items, stored_names, find_active, requested_volume,
  select_data_volume, active_volume, selected_services, active_for, argument_or, or_default,
  asks_embedded_docker, path_of, env_flag,
}
use localcloud_cli.Config.Load.{
  select_image, select_docker, select_environment, select_names, select_settings, load_config,
}
use localcloud_cli.Config.Catalog.{effective_service_catalog, enabled_services}
use localcloud_cli.Value.{end}
use localcloud_cli.Config.Load.WellFormed.Tls.{IsTls, select_tls-IsTls}
use localcloud_cli.Config.Load.WellFormed.Volume.{
  IsHandedOver, IsVolume, find_active-IsVolume, select_data_volume-IsVolume,
}
use localcloud_cli.Config.Load.WellFormed.Host.{
  IsOptionalRange, IsDataMode, optional_range-IsOptionalRange, data_mode-Returns,
  select_environment-IsUserVariable, select_names-IsNames,
}

-- Settings that fit together.
pub record IsWellFormed (c : LocalCloudConfig) : Type 0 where
  pub data_volume : data_volume_pattern c.data_volume ≡ true
  pub project : IsProject c.project
  pub user : user_pattern c.user ≡ true
  pub data_setting : IsDataMode c.data_setting
  pub memory : memory_pattern c.memory ≡ true
  pub environment : All IsUserVariable c.environment
  pub port_range : IsOptionalRange c.port_range
  pub tls : IsTls c.transparent_network c.tls_enabled c.tls_port
  pub container_name : docker_name_pattern c.container_name ≡ true
  pub network_name : docker_name_pattern c.network_name ≡ true

module _ (w : Surroundings) (suggestion : IsSuggestion w.git_project) where
  select_settings-IsWellFormed :
      (args : Arguments) (selected : Selected) (raw : Items) (diagnostics : Diagnostics)
      → IsHandedOver args.active
      → Returns IsWellFormed (select_settings w args selected raw diagnostics)
  unfolding select_settings
  select_settings-IsWellFormed args selected raw diagnostics handed_over =
      let host = section_items (get (codes "host") raw) in
      let section = section_items (get (codes "services") raw) in
      let volume' = get (codes "data_volume") host in
      Returns-bind _ _
        (find_active-IsVolume w args.active (requested_volume args.data_volume volume') diagnostics
          handed_over)
        λ found is_found.
          Returns-bind _ _ (select_data_volume-IsVolume args.data_volume volume' found.0 is_found)
            λ volume is_volume.
              Returns-bind _ _ (select_project-IsSelectedProject args.project _ _ _ _ suggestion)
                λ project is_project. Returns-bind _ _ (validate_user-Returns _) λ user is_user.
                  Returns-after (selected_services args.services (get (codes "enabled") section)) _
                    λ chosen _.
                      Returns-after (effective_service_catalog w.packaged section) _ λ catalog _.
                        Returns-bind _ _ (data_mode-Returns _) λ mode is_data_mode.
                          Returns-after
                            (select_image args (get (codes "image") host)
                              (w.variable (codes "LOCALCLOUD_IMAGE")) (active_for volume found.0))
                            _
                            λ image _. Returns-bind _ _ (memory_limit-Returns _) λ memory is_memory.
                              Returns-after
                                (select_docker w (get (codes "docker_socket") host) chosen catalog)
                                _
                                λ access _.
                                  Returns-after
                                    (boolean (
                                      or_default (get (codes "transparent_network") host)
                                        (bool false)))
                                    _
                                    λ transparent _.
                                      Returns-bind _ _
                                        (select_environment-IsUserVariable args
                                          (get (codes "environment") host) access.1)
                                        λ variables is_environment.
                                          Returns-after
                                            (mysql_port catalog (enabled_services chosen catalog)
                                              variables)
                                            _
                                            λ mysql _.
                                              Returns-bind _ _
                                                (optional_range-IsOptionalRange args.port_range
                                                  (get (codes "port_range") host))
                                                λ range is_range.
                                                  Returns-bind _ _
                                                    (select_tls-IsTls
                                                      (section_items (get (codes "tls") raw))
                                                      variables transparent)
                                                    λ tls is_tls.
                                                      Returns-bind _ _
                                                        (select_names-IsNames w args host volume
                                                          found.0)
                                                        λ names is_names. Returns-ok _ (record {
                                                          data_volume = is_volume;
                                                          project = is_project;
                                                          user = is_user;
                                                          data_setting = is_data_mode;
                                                          memory = is_memory;
                                                          environment = is_environment;
                                                          port_range = is_range;
                                                          tls = is_tls;
                                                          container_name = is_names.0;
                                                          network_name = is_names.1;
                                                        })

  load_config-Returns :
      (args : Arguments) → IsHandedOver args.active → Returns IsWellFormed (load_config w args)
  unfolding load_config
  load_config-Returns args handed_over =
      Returns-after
        (select_config_path w.files w.base w.local_path args.explicit
          (w.variable (codes "LOCALCLOUD_CONFIG")) args.remembered w.home_path)
        _
        λ selected _. Returns-after (w.read (path_of selected)) _ λ raw _.
          let skip =
            args.skip_validation
            || env_flag (w.variable (codes "LOCALCLOUD_SKIP_CONFIG_VALIDATION")) in
          Returns-after (validate_config_document skip raw args.active_diagnostics) _
            λ diagnostics _. select_settings-IsWellFormed args selected raw diagnostics handed_over

  -- Where the name of the git repository makes a project ID or nothing, and an active runtime that
  -- the caller hands over has a valid data volume: the settings that `load_config` returns, whatever
  -- the document, the arguments, the environment and the state file, fit together. The data volume,
  -- the project, the user, the memory limit and the names of the container and the network match
  -- their patterns; the data are kept or dropped; the variables are the user's to set; the port
  -- range is one of unprivileged ports; and TLS is on where the transparent network needs it, and
  -- then on a port that is not reserved.
  pub load_config-IsWellFormed :
      (args : Arguments) (c : LocalCloudConfig)
      → IsHandedOver args.active
      → load_config w args ≡ ok c
      → IsWellFormed c
  load_config-IsWellFormed args c handed_over = (load_config-Returns args handed_over).at c
