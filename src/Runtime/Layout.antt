-- ===== src/Runtime/Layout.antt =====
-- Which container ports a runtime publishes, and their canonical host ports.
use localcloud_cli.Prelude.{
  ℕ, zero, suc, Bool, true, false, ◌||◌, List, [], ◌∷◌, ◌++◌, Option, none, some, ℤ, pos, eq_ℤ, ltb,
  ◌=?◌, keep_if, any, if◌then◌else◌,
}
use localcloud_cli.Text.{Text, codes}
use localcloud_cli.Text.Numbers.{show_int}
use localcloud_cli.Dict
use localcloud_cli.Dict.{Dict}
use localcloud_cli.Config.Settings.{LocalCloudConfig}

pub data Protocol : Type 0 where
  tcp udp : Protocol

-- start, start + 1, … of a given number
unfoldable pub range : ℕ → ℕ → List ℕ
range start zero = []
range start (suc count) = start ∷ range (suc start) count

abbrev pub gateway_port : ℕ
gateway_port = 5380

abbrev pub dns_port : ℕ
dns_port = 5410

unfoldable pub base_tcp_ports : List ℕ
unfolding range
base_tcp_ports = range 5380 26

abbrev pub dedicated_tls_ports : List ℕ
dedicated_tls_ports = 5392 ∷ 5393 ∷ 5394 ∷ []

-- sorted(set(ports))
unfoldable pub insert_tcp_port : ℕ → List ℕ → List ℕ
insert_tcp_port p [] = p ∷ []
insert_tcp_port p (q ∷ qs) =
    let later = q ∷ insert_tcp_port p qs in
    if p =? q then q ∷ qs else if ltb p q then p ∷ q ∷ qs else later

unfoldable pub sorted_tcp_ports : List ℕ → List ℕ
unfolding insert_tcp_port
sorted_tcp_ports [] = []
sorted_tcp_ports (p ∷ ps) = insert_tcp_port p (sorted_tcp_ports ps)

unfoldable pub ordinary_tcp_ports : LocalCloudConfig → List ℕ
unfolding base_tcp_ports sorted_tcp_ports
ordinary_tcp_ports c =
    sorted_tcp_ports
      (base_tcp_ports ++ (if c.tls_enabled then c.tls_port ∷ dedicated_tls_ports else []))

-- `port in {5380, *config.service_ports}`, with the TLS port where TLS is on
unfoldable pub is_used : LocalCloudConfig → ℕ → Bool
unfolding any
is_used c port =
    port =? gateway_port
    || any (λ used. eq_ℤ (pos port) used) c.service_ports
    || (if c.tls_enabled then port =? c.tls_port else false)

abbrev pub used_ports : List ℤ → LocalCloudConfig → List ℕ → List ℕ
used_ports [] c ports = ports
used_ports (p ∷ ps) c ports = keep_if (is_used c) ports

unfoldable pub fallback_tcp_ports : LocalCloudConfig → List ℕ
unfolding ordinary_tcp_ports is_used keep_if
fallback_tcp_ports c = used_ports c.service_ports c (ordinary_tcp_ports c)

unfoldable pub mysql_port_pinned : LocalCloudConfig → Bool
unfolding Dict.get
mysql_port_pinned c = elim (Dict.get (codes "LOCALCLOUD_MYSQL_PORT") c.environment) [
  | none ↦ false
  | some value ↦ true
]

-- The MySQL companion's port, unless the user pins it.
unfoldable pub movable_mysql : LocalCloudConfig → Option ℕ
unfolding mysql_port_pinned
movable_mysql c = if mysql_port_pinned c then none else c.mysql_port

abbrev pub optional_item : Option ℕ → List ℕ
optional_item none = []
optional_item (some n) = n ∷ []

abbrev pub with_mysql : LocalCloudConfig → List ℕ → List ℕ
with_mysql c ports = ports ++ optional_item (movable_mysql c)

-- f"{port}/tcp" and f"{port}/udp"
abbrev pub port_key : ℕ → Protocol → Text
port_key n tcp = show_int (pos n) ++ codes "/tcp"
port_key n udp = show_int (pos n) ++ codes "/udp"

-- The host addresses and ports of each published container port.
abbrev pub Bindings : Type 0
Bindings = Dict (List (Text × ℕ))

abbrev pub host_ip : LocalCloudConfig → Text
host_ip c = if c.local_only then codes "127.0.0.1" else []

abbrev pub or_none : Option (List (Text × ℕ)) → List (Text × ℕ)
or_none none = []
or_none (some hosts) = hosts

-- `bindings[key] = (*bindings.get(key, ()), (host_ip, host_port))`
unfoldable pub add_binding : Text → Text → ℕ → Bindings → Bindings
unfolding Dict.get Dict.put
add_binding key ip port bindings =
    Dict.put key (or_none (Dict.get key bindings) ++ (ip, port) ∷ []) bindings

-- The dict comprehension over zip(published, host_ports).
unfoldable pub bind_ports : Text → List ℕ → List ℕ → Bindings → Bindings
unfolding Dict.put
bind_ports ip [] hosts bindings = bindings
bind_ports ip (p ∷ ps) [] bindings = bindings
bind_ports ip (p ∷ ps) (h ∷ hs) bindings =
    bind_ports ip ps hs (Dict.put (port_key p tcp) ((ip, h) ∷ []) bindings)
