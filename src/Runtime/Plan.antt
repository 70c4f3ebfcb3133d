-- ===== src/Runtime/Plan.antt =====
-- The host ports of a new container: `_port_plan`. What the operating system says of a port, and the
-- ports of the container that is replaced, are parameters.
pub mod Usable
use localcloud_cli.Prelude.{
  ℕ, zero, suc, Bool, true, false, not, ◌&&◌, ◌||◌, List, [], ◌∷◌, ◌++◌, Option, none, some, all,
  length, if◌then◌else◌, Result, ok, raise, host_error, index_error, transparent_port_unavailable,
  ◌>>=◌, ◌>>◌, raise_if,
}
use localcloud_cli.Text.{Text}
use localcloud_cli.Config.Fields.{invalid}
use localcloud_cli.Config.Settings.{LocalCloudConfig}
use localcloud_cli.Runtime.Layout.{
  Protocol, tcp, udp, ordinary_tcp_ports, fallback_tcp_ports, movable_mysql, with_mysql, port_key,
  Bindings, host_ip, add_binding, bind_ports, gateway_port, dns_port,
}
use localcloud_cli.Runtime.Block.{available_tcp_port_block, configured_port_ranges}

abbrev pub is_none : Option (ℕ × ℕ) → Bool
is_none none = true
is_none (some r) = false

-- ports[n]
unfoldable pub item_at : ℕ → List ℕ → Result ℕ
item_at n [] = raise index_error
item_at zero (p ∷ ps) = ok p
item_at (suc n) (p ∷ ps) = item_at n ps

abbrev pub mysql_host_port : Option ℕ → Option ℕ → ℕ → List ℕ → Result (Option ℕ)
mysql_host_port none configured n hosts = ok configured
mysql_host_port (some movable) configured n hosts = item_at n hosts >>= λ p. ok (some p)

module _ (is_free : Text → Protocol → ℕ → Bool) (allowed : Protocol → ℕ → Bool) where
  unfoldable pub is_usable : LocalCloudConfig → Protocol → ℕ → Bool
  is_usable c protocol port = is_free (host_ip c) protocol port || allowed protocol port

  -- The published container ports and their host ports, the MySQL companion's last.
  unfoldable pub choose_ports : LocalCloudConfig → Result (List ℕ × List ℕ)
  unfolding is_usable available_tcp_port_block configured_port_ranges fallback_tcp_ports
      ordinary_tcp_ports all
  choose_ports c =
      let ordinary = ordinary_tcp_ports c in
      let fallback = fallback_tcp_ports c in
      if is_none c.port_range && all (is_usable c tcp) (with_mysql c ordinary)
      then ok (ordinary, with_mysql c ordinary)
      else available_tcp_port_block (is_usable c tcp) (length (with_mysql c fallback))
          (configured_port_ranges c)
        >>= λ hosts. ok (fallback, hosts)

  unfoldable pub bind_transparent : LocalCloudConfig → ℕ → ℕ → Protocol → Bindings → Result Bindings
  unfolding is_usable add_binding
  bind_transparent c host container protocol bindings =
      if is_usable c protocol host
      then ok (add_binding (port_key container protocol) (host_ip c) host bindings)
      else raise (host_error transparent_port_unavailable)

  unfoldable pub transparent_ports : LocalCloudConfig → Bindings → Result Bindings
  unfolding bind_transparent
  transparent_ports c bindings = do
    raise_if (not c.tls_enabled) invalid
    dns ← bind_transparent c 53 dns_port udp bindings
    http ← bind_transparent c 80 gateway_port tcp dns
    bind_transparent c 443 c.tls_port tcp http

  unfoldable pub port_plan : LocalCloudConfig → Result (Bindings × Option ℕ)
  unfolding choose_ports item_at bind_ports transparent_ports movable_mysql
  port_plan c = do
    chosen ← choose_ports c
    mysql ← mysql_host_port (movable_mysql c) c.mysql_port (length chosen.0) chosen.1
    let bindings = bind_ports (host_ip c) chosen.0 chosen.1 []
    planned ← if c.transparent_network then transparent_ports c bindings else ok bindings
    ok (planned, mysql)
