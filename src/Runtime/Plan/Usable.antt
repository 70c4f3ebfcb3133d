-- ===== src/Runtime/Plan/Usable.antt =====
-- The host ports of a plan are free or the runtime's own.
use localcloud_cli.Prelude.{
  ℕ, zero, suc, ◌≡◌, refl, ap, ◌∙◌, Bool, true, false, not, ◌&&◌, List, [], ◌∷◌, Option, none, some,
  all, arith, and-eq-true, length, All, ok, host_error, index_error, raise_if, if◌then◌else◌,
  transparent_port_unavailable, Returns, Returns-ok, Returns-raise, Returns-if, Returns-bind,
  Returns-after, Returns-mono,
}
use localcloud_cli.Text.{Text}
use localcloud_cli.Dict.Laws.{put-All}
use localcloud_cli.Config.Fields.{invalid}
use localcloud_cli.Config.Fields.Bounds.{passed}
use localcloud_cli.Config.Settings.{LocalCloudConfig}
use localcloud_cli.Runtime.Layout.{
  Protocol, tcp, udp, ordinary_tcp_ports, fallback_tcp_ports, movable_mysql, with_mysql, port_key,
  Bindings, host_ip, bind_ports, gateway_port, dns_port,
}
use localcloud_cli.Runtime.Block.{PortRange, available_tcp_port_block, configured_port_ranges}
use localcloud_cli.Runtime.Block.Windows.{available_tcp_port_block-Window, length-range}
use localcloud_cli.Runtime.Plan.{
  is_none, item_at, mysql_host_port, is_usable, choose_ports, bind_transparent, transparent_ports,
  port_plan,
}

module _ (is_free : Text → Protocol → ℕ → Bool) (allowed : Protocol → ℕ → Bool)
    (c : LocalCloudConfig) where
  abbrev usable : ℕ → Bool
  usable = is_usable is_free allowed c tcp

  -- Usable host ports for all published ports and for the companion.
  pub record IsChosen (chosen : List ℕ × List ℕ) : Type 0 where
    pub free : all usable chosen.1 ≡ true
    pub count : length chosen.1 ≡ length (with_mysql c chosen.0)

  block-IsChosen :
      (published : List ℕ) (ranges : List PortRange)
      → Returns
          (λ hosts. IsChosen (published, hosts))
          (available_tcp_port_block usable (length (with_mysql c published)) ranges)
  block-IsChosen published ranges = record {
    at = λ hosts h.
        let (r, among, (s, window, same)) =
          available_tcp_port_block-Window usable _ ranges hosts h in
        record {
          free = ap (all usable) same ∙ window.free;
          count = ap length same ∙ length-range s _;
        };
  }

  choose_ports-IsChosen : Returns IsChosen (choose_ports is_free allowed c)
  unfolding choose_ports
  choose_ports-IsChosen =
      Returns-if (is_none c.port_range && all usable (with_mysql c (ordinary_tcp_ports c))) _ _
        (λ h. Returns-ok _ (record { free = (and-eq-true _ _ h).1; count = refl }))
        λ h.
          Returns-bind _ _ (block-IsChosen (fallback_tcp_ports c) (configured_port_ranges c))
            λ hosts chosen. Returns-ok (fallback_tcp_ports c, hosts) chosen

  -- A container port is bound to one address, and to a host port that may be taken.
  abbrev pub IsBound : Text × List (Text × ℕ) → Type 0
  IsBound (key, hosts) =
      (p : ℕ) × (hosts ≡ (host_ip c, p) ∷ []) × (is_usable is_free allowed c tcp p ≡ true)

  bind_ports-All :
      (published hosts : List ℕ) (bindings : Bindings)
      → all usable hosts ≡ true
      → All IsBound bindings
      → All IsBound (bind_ports (host_ip c) published hosts bindings)
  unfolding bind_ports all
  bind_ports-All [] hosts bindings free h = h
  bind_ports-All (p ∷ ps) [] bindings free h = h
  bind_ports-All (p ∷ ps) (q ∷ qs) bindings free h =
      let (here, later) = and-eq-true (usable q) _ free in
      bind_ports-All ps qs _ later
        (put-All IsBound (port_key p tcp) ((host_ip c, q) ∷ []) bindings (q, refl, here) h)

  item_at-usable :
      (n : ℕ) (hosts : List ℕ)
      → all usable hosts ≡ true
      → Returns (λ p. usable p ≡ true) (item_at n hosts)
  unfolding item_at all
  item_at-usable n [] free = Returns-raise index_error
  item_at-usable zero (p ∷ ps) free = Returns-ok p (and-eq-true (usable p) _ free).0
  item_at-usable (suc n) (p ∷ ps) free = item_at-usable n ps (and-eq-true (usable p) _ free).1

  -- The companion keeps its port where it is pinned or has none, and else takes a usable one.
  abbrev pub IsMysql : Option ℕ → Option ℕ → Type 0
  IsMysql none planned = planned ≡ c.mysql_port
  IsMysql (some m) planned =
      (p : ℕ) × (planned ≡ some p) × (is_usable is_free allowed c tcp p ≡ true)

  mysql_host_port-Returns :
      (movable : Option ℕ) (n : ℕ) (hosts : List ℕ)
      → all usable hosts ≡ true
      → Returns (IsMysql movable) (mysql_host_port movable c.mysql_port n hosts)
  mysql_host_port-Returns none n hosts free = Returns-ok c.mysql_port refl
  mysql_host_port-Returns (some m) n hosts free =
      Returns-bind (item_at n hosts) _ (item_at-usable n hosts free)
        λ p h. Returns-ok (some p) (p, refl, h)

  bind_transparent-usable :
      (host container : ℕ) (protocol : Protocol) (bindings : Bindings)
      → Returns
          (λ b. is_usable is_free allowed c protocol host ≡ true)
          (bind_transparent is_free allowed c host container protocol bindings)
  unfolding bind_transparent
  bind_transparent-usable host container protocol bindings =
      Returns-if (is_usable is_free allowed c protocol host) _ _ (λ h. Returns-ok _ h)
        λ h. Returns-raise (host_error transparent_port_unavailable)

  -- What the transparent network needs.
  pub record IsTransparent : Type 0 where
    pub tls : c.tls_enabled ≡ true
    pub dns : is_usable is_free allowed c udp 53 ≡ true
    pub http : is_usable is_free allowed c tcp 80 ≡ true
    pub https : is_usable is_free allowed c tcp 443 ≡ true

  eq_true : (b : Bool) → not b ≡ false → b ≡ true
  eq_true b h = ground arith

  transparent_ports-IsTransparent :
      (bindings : Bindings)
      → Returns (λ b. IsTransparent) (transparent_ports is_free allowed c bindings)
  unfolding transparent_ports
  transparent_ports-IsTransparent bindings =
      Returns-after (raise_if (not c.tls_enabled) invalid) _ λ u on.
        Returns-bind _ _ (bind_transparent-usable 53 dns_port udp bindings) λ b1 dns.
          Returns-bind _ _ (bind_transparent-usable 80 gateway_port tcp b1) λ b2 http.
            Returns-mono (bind_transparent is_free allowed c 443 c.tls_port tcp b2)
              (λ b3 https. record {
                tls = eq_true c.tls_enabled (passed (not c.tls_enabled) invalid u on);
                dns = dns;
                http = http;
                https = https;
              })
              (bind_transparent-usable 443 c.tls_port tcp b2)

  abbrev pub IsPublished : Bool → Bindings → Type 0
  IsPublished true bindings = IsTransparent
  IsPublished false bindings = All IsBound bindings

  publish-IsPublished :
      (transparent : Bool) (bindings : Bindings)
      → All IsBound bindings
      → Returns
          (IsPublished transparent)
          (if transparent then transparent_ports is_free allowed c bindings else ok bindings)
  publish-IsPublished true bindings h = transparent_ports-IsTransparent bindings
  publish-IsPublished false bindings h = Returns-ok bindings h

  port_plan-Returns :
      Returns
        (λ plan. IsPublished c.transparent_network plan.0 × IsMysql (movable_mysql c) plan.1)
        (port_plan is_free allowed c)
  unfolding port_plan
  port_plan-Returns =
      Returns-bind (choose_ports is_free allowed c) _ choose_ports-IsChosen λ chosen good.
        Returns-bind _ _
          (mysql_host_port-Returns (movable_mysql c) (length chosen.0) chosen.1 good.free)
          λ mysql is_mysql.
            Returns-bind _ _
              (publish-IsPublished c.transparent_network _
                (bind_ports-All chosen.0 chosen.1 [] good.free tt))
              λ planned is_published. Returns-ok (planned, mysql) (is_published, is_mysql)

  -- A plan without the transparent network binds every container port that it publishes to a single
  -- host port, on the settings' address, that is free or the runtime's own. With the transparent
  -- network, TLS is on, and the host ports 53, 80 and 443 are free or the runtime's own. In both, so
  -- is the port of the MySQL companion, unless the user pins it or there is none.
  pub port_plan-IsPublished :
      (bindings : Bindings) (mysql : Option ℕ)
      → port_plan is_free allowed c ≡ ok (bindings, mysql)
      → IsPublished c.transparent_network bindings × IsMysql (movable_mysql c) mysql
  port_plan-IsPublished bindings mysql = port_plan-Returns.at (bindings, mysql)
