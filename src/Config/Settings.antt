-- ===== src/Config/Settings.antt =====
-- What `load_config` of config.py is given, and the settings that it returns.
use localcloud_cli.Prelude.{ℕ, ℤ, Bool, List, Option, Result}
use localcloud_cli.Text.{Text}
use localcloud_cli.Dict.{Dict}
use localcloud_cli.Value.{Value, Items}
use localcloud_cli.State.{ActiveRuntime}
use localcloud_cli.State.Store.{File}
use localcloud_cli.Config.Fields.{DockerAccessMode}
use localcloud_cli.Config.Catalog.{Catalog}
use localcloud_cli.Config.Select.{Files, ProjectSource}
use localcloud_cli.Config.Document.{Diagnostics}

-- What the process finds round it. `read` is the YAML reader.
pub record Surroundings : Type 0 where
  pub files : Files
  pub base : Text
  pub local_path : Text
  pub home_path : Text
  pub variable : Text → Option Text
  pub read : Option Text → Result Items
  pub packaged : Catalog
  pub packaged_docker_access : Value
  pub git_project : Option Text
  pub hexdigest : Text → Text
  pub state_file : File

-- The arguments of `load_config`; `active` is `none` where the state file is to be read.
pub record Arguments : Type 0 where
  pub explicit : Option Text
  pub remembered : Option Text
  pub data_volume : Option Text
  pub project : Option Text
  pub user : Option Text
  pub container_name : Option Text
  pub network_name : Option Text
  pub tls : Option Bool
  pub memory : Option Text
  pub image : Option Text
  pub estargz : Option Bool
  pub services : Option Value
  pub active : Option (Option ActiveRuntime)
  pub active_diagnostics : Diagnostics
  pub skip_validation : Bool
  pub strict_port_validation : Bool
  pub local_only : Bool
  pub port_range : Option Text
  pub project_from_git : Bool

-- The fields of `LocalCloudConfig`, without the hash of the settings.
pub record LocalCloudConfig : Type 0 where
  pub data_volume : Text
  pub config_path : Option Text
  pub project : Text
  pub project_source : ProjectSource
  pub user : Text
  pub services : Option (List Text)
  pub effective_services : List Text
  pub data_setting : Text
  pub image : Text
  pub memory : Text
  pub docker_socket_mode : DockerAccessMode
  pub docker_socket : Bool
  pub transparent_network : Bool
  pub environment : Dict Text
  pub tls_enabled : Bool
  pub tls_port : ℕ
  pub strict_port_validation : Bool
  pub local_only : Bool
  pub container_name : Text
  pub network_name : Text
  pub diagnostics : Diagnostics
  pub mysql_port : Option ℕ
  pub service_ports : List ℤ
  pub port_range : Option (ℕ × ℕ)
