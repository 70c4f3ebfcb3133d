-- ===== src/Runtime/Current/Planned.antt =====
-- A runtime that was started by a plan on free canonical ports has canonical ports.
use localcloud_cli.Prelude.{
  ℕ, ◌≡◌, Bool, true, false, List, [], Option, all, length, Result, ok, ◌>>=◌, if◌then◌else◌,
}
use localcloud_cli.Text.{Text}
use localcloud_cli.Config.Settings.{LocalCloudConfig}
use localcloud_cli.Runtime.Layout.{
  Protocol, tcp, ordinary_tcp_ports, movable_mysql, with_mysql, Bindings, host_ip, bind_ports,
}
use localcloud_cli.Runtime.Plan.{is_none, mysql_host_port, is_usable}
use localcloud_cli.Runtime.Plan.{transparent_ports}

module _ (is_free : Text → Protocol → ℕ → Bool) (allowed : Protocol → ℕ → Bool)
    (c : LocalCloudConfig) (default_range : is_none c.port_range ≡ true)
    (no_transparent : c.transparent_network ≡ false)
    (free : all (is_usable is_free allowed c tcp) (with_mysql c (ordinary_tcp_ports c))
      ≡ true) where
  abbrev canonical : Bindings
  canonical = bind_ports (host_ip c) (ordinary_tcp_ports c) (ordinary_tcp_ports c) []

  abbrev publish_with : List ℕ × List ℕ → Option ℕ → Result (Bindings × Option ℕ)
  publish_with chosen mysql =
      let bindings = bind_ports (host_ip c) chosen.0 chosen.1 [] in
      (if c.transparent_network then transparent_ports is_free allowed c bindings else ok bindings)
      >>= λ planned. ok (planned, mysql)

  abbrev plan_with : List ℕ × List ℕ → Result (Bindings × Option ℕ)
  plan_with chosen =
      mysql_host_port (movable_mysql c) c.mysql_port (length chosen.0) chosen.1
      >>= publish_with chosen
