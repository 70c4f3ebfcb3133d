-- ===== src/Runtime/Tests.antt =====
-- Runs of the port modules at concrete inputs, and their theorems there.
use localcloud_cli.Prelude.{
  ℕ, ◌≡◌, refl, arith, Bool, true, false, not, [], ◌∷◌, List, none, some, ok, pos, all, any,
  keep_if, ◌=?◌,
}
use localcloud_cli.Text.{Text, codes, ◌==◌}
use localcloud_cli.Text.Numbers.{show_int}
use localcloud_cli.Dict
use localcloud_cli.Config.Fields.{auto}
use localcloud_cli.Config.Select.{config}
use localcloud_cli.Config.Settings.{LocalCloudConfig}
use localcloud_cli.Runtime.Layout.{
  Protocol, range, fallback_tcp_ports, ordinary_tcp_ports, mysql_port_pinned, movable_mysql,
}
use localcloud_cli.Runtime.Block.{available_tcp_port_block, fallback_tcp_port_ranges}
use localcloud_cli.Runtime.Block.Windows.{Window, here, available_tcp_port_block-found}
use localcloud_cli.Runtime.Plan.{port_plan, choose_ports}
use localcloud_cli.Runtime.Plan.Usable.{IsPublished, IsMysql, port_plan-IsPublished}

-- What a run of the modules computes through.
runs : Unit {0}
unfolding codes all any ◌==◌ show_int keep_if Dict.get Dict.put range fallback_tcp_ports
    ordinary_tcp_ports mysql_port_pinned movable_mysql available_tcp_port_block port_plan
    choose_ports
runs = tt

-- Someone listens on 5509.
abbrev not_5509 : ℕ → Bool
not_5509 p = not (p =? 5509)

found_block :
    available_tcp_port_block not_5509 3 fallback_tcp_port_ranges ≡ ok (5510 ∷ 5511 ∷ 5512 ∷ [])
unfolding runs
found_block = refl

later_block : Window not_5509 3 5520 (record { start = 5508; stop = 5540 })
unfolding runs
later_block = record { from = omega arith; to = omega arith; free = refl }

available_tcp_port_block-found_example :
    (ports : List ℕ) × (available_tcp_port_block not_5509 3 fallback_tcp_port_ranges ≡ ok ports)
available_tcp_port_block-found_example =
    available_tcp_port_block-found not_5509 3 5520 (record { start = 5508; stop = 5540 })
      fallback_tcp_port_ranges here later_block

-- Settings with a range of host ports, one service and a MySQL companion.
abbrev settings : LocalCloudConfig
settings = record {
  data_volume = codes "localcloud-data";
  config_path = none;
  project = codes "demo-project";
  project_source = config;
  user = codes "local-developer";
  services = none;
  effective_services = codes "storage" ∷ [];
  data_setting = codes "persistent";
  image = codes "agentcloud/localcloud:latest";
  memory = codes "4g";
  docker_socket_mode = auto;
  docker_socket = false;
  transparent_network = false;
  environment = [];
  tls_enabled = false;
  tls_port = 5381;
  strict_port_validation = false;
  local_only = true;
  container_name = codes "localcloud";
  network_name = codes "localcloud";
  diagnostics = [];
  mysql_port = some 3306;
  service_ports = pos 5383 ∷ [];
  port_range = some (6000, 6100);
}

-- Someone listens on 6001.
abbrev not_6001 : Text → Protocol → ℕ → Bool
not_6001 ip protocol p = not (p =? 6001)

abbrev nothing : Protocol → ℕ → Bool
nothing protocol p = false

planned :
    port_plan not_6001 nothing settings
    ≡ ok (
      (codes "5380/tcp", (codes "127.0.0.1", 6002) ∷ [])
          ∷ (codes "5383/tcp", (codes "127.0.0.1", 6003) ∷ [])
          ∷ [],
      some 6004,
    )
unfolding runs
planned = refl

port_plan-IsPublished_example :
    IsPublished not_6001 nothing settings false (
      (codes "5380/tcp", (codes "127.0.0.1", 6002) ∷ [])
      ∷ (codes "5383/tcp", (codes "127.0.0.1", 6003) ∷ [])
      ∷ [])
    × IsMysql not_6001 nothing settings (movable_mysql settings) (some 6004)
port_plan-IsPublished_example =
    port_plan-IsPublished not_6001 nothing settings _ (some 6004) planned

-- The same settings without a range, on every address of the host.
abbrev default_settings : LocalCloudConfig
default_settings = record settings { port_range = none; local_only = false }
