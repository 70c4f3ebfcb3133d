-- ===== src/Runtime/Current.antt =====
-- Whether a runtime that runs already publishes the ports that the settings ask for:
-- `has_canonical_ports`, `_canonical_port_bindings` and `_within_configured_range`.
pub mod Planned
pub mod Published
use localcloud_cli.Prelude.{
  is_nil, ℕ, Bool, true, false, not, ◌&&◌, ◌||◌, List, [], ◌∷◌, ◌++◌, Option, none, some, all, any,
  leb, ◌=?◌, map, if◌then◌else◌, Result, ok, raise, key_error, ◌>>=◌, keep_if,
}
use localcloud_cli.Text.{Text, codes, ◌==◌, ends_with, elem}
use localcloud_cli.Dict
use localcloud_cli.Dict.{Dict}
use localcloud_cli.Config.Settings.{LocalCloudConfig}
use localcloud_cli.Runtime.Layout.{
  tcp, udp, ordinary_tcp_ports, fallback_tcp_ports, mysql_port_pinned, port_key, Bindings, host_ip,
  bind_ports, gateway_port, dns_port,
}

abbrev pub HostBinding : Type 0
HostBinding = Text × Option ℕ

-- The ports of the runtime's record; `none` is a container port without a host port.
pub record RuntimePorts : Type 0 where
  pub published_ports : Dict (List HostBinding)
  pub mysql_port : Option ℕ

-- `bindings[key] = (*bindings[key], (host_ip, host_port))`
abbrev pub extended : Text → Text → ℕ → Bindings → Option (List (Text × ℕ)) → Result Bindings
extended key ip port bindings none = raise key_error
extended key ip port bindings (some hosts) = ok (Dict.put key (hosts ++ (ip, port) ∷ []) bindings)

unfoldable pub extend_binding : Text → Text → ℕ → Bindings → Result Bindings
unfolding Dict.get Dict.put
extend_binding key ip port bindings = extended key ip port bindings (Dict.get key bindings)

unfoldable pub canonical_port_bindings : LocalCloudConfig → Result Bindings
unfolding bind_ports ordinary_tcp_ports extend_binding
canonical_port_bindings c =
    let ports = ordinary_tcp_ports c in
    let ip = host_ip c in
    let bindings = bind_ports ip ports ports [] in
    let transparent = (do
      with_http ← extend_binding (port_key gateway_port tcp) ip 80 bindings
      with_https ← extend_binding (port_key c.tls_port tcp) ip 443 with_http
      ok (Dict.put (port_key dns_port udp) ((ip, 53) ∷ []) with_https)) in
    if c.transparent_network then transparent else ok bindings

-- d.keys() == e.keys()
unfoldable pub same_keys : {A B : Type 0} → Dict A → Dict B → Bool
unfolding all elem
same_keys d e =
    all (λ k. elem k (map (λ i. i.0) e)) (map (λ i. i.0) d)
    && all (λ k. elem k (map (λ i. i.0) d)) (map (λ i. i.0) e)

abbrev pub equal_port : Option ℕ → Option ℕ → Bool
equal_port none none = true
equal_port (some m) (some n) = m =? n
equal_port _ _ = false

abbrev pub equal_binding : HostBinding → HostBinding → Bool
equal_binding (i, m) (j, n) = i == j && equal_port m n

-- Equality of sets.
unfoldable pub same_bindings : List HostBinding → List HostBinding → Bool
unfolding all any
same_bindings xs ys =
    all (λ x. any (equal_binding x) ys) xs && all (λ y. any (λ x. equal_binding x y) xs) ys

abbrev pub wildcard : Bool → HostBinding → HostBinding
wildcard local_only (ip, port) =
    if not local_only && (ip == codes "0.0.0.0" || ip == codes "::") then ([], port) else (ip, port)

abbrev pub binds : Bool → List (Text × ℕ) → Option (List HostBinding) → Bool
binds local_only hosts none = false
binds local_only hosts (some published) =
    same_bindings (map (wildcard local_only) published) (map (λ h. (h.0, some h.1)) hosts)

abbrev pub matches_mysql : Option ℕ → Option ℕ → Bool
matches_mysql none published = true
matches_mysql (some n) published = equal_port published (some n)

unfoldable pub publishes : LocalCloudConfig → RuntimePorts → Bindings → Bool
unfolding same_keys same_bindings all Dict.get
publishes c r expected =
    same_keys r.published_ports expected
    && matches_mysql c.mysql_port r.mysql_port
    && all (λ e. binds c.local_only e.1 (Dict.get e.0 r.published_ports)) expected

-- The host ports of the TCP specs, without those of the transparent network.
abbrev pub is_block_port : HostBinding → Bool
is_block_port (ip, none) = false
is_block_port (ip, some p) = not (p =? 53 || p =? 80 || p =? 443)

unfoldable pub block_ports : Dict (List HostBinding) → List HostBinding
unfolding keep_if ends_with
block_ports [] = []
block_ports ((spec, bindings) ∷ published) =
    let rest = block_ports published in
    if ends_with spec (codes "/tcp") then keep_if is_block_port bindings ++ rest else rest

abbrev pub is_within : ℕ → ℕ → Option ℕ → Bool
is_within start last none = false
is_within start last (some p) = leb start p && leb p last

abbrev pub mysql_within : LocalCloudConfig → ℕ → ℕ → Option ℕ → Option ℕ → Bool
mysql_within c start last none published = true
mysql_within c start last (some n) published =
    if mysql_port_pinned c then true else is_within start last published

abbrev pub expected_specs : LocalCloudConfig → Dict (Unit {0})
expected_specs c =
    map (λ p. (port_key p tcp, tt)) (fallback_tcp_ports c)
    ++ (if c.transparent_network then (port_key dns_port udp, tt) ∷ [] else [])

unfoldable pub within_configured_range : LocalCloudConfig → RuntimePorts → ℕ → ℕ → Bool
unfolding same_keys block_ports all fallback_tcp_ports mysql_port_pinned
within_configured_range c r start last =
    let ports = block_ports r.published_ports in
    same_keys r.published_ports (expected_specs c)
    && not (is_nil ports)
    && all (λ b. is_within start last b.1) ports
    && mysql_within c start last c.mysql_port r.mysql_port

unfoldable pub has_canonical_ports : LocalCloudConfig → RuntimePorts → Result Bool
unfolding within_configured_range canonical_port_bindings publishes
has_canonical_ports c r = elim c.port_range [
  | none ↦ canonical_port_bindings c >>= λ expected. ok (publishes c r expected)
  | some (start, last) ↦ ok (within_configured_range c r start last)
]
