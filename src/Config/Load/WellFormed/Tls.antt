-- ===== src/Config/Load/WellFormed/Tls.antt =====
-- The TLS settings that `load_config` returns.
use localcloud_cli.Prelude.{
  ℕ, ◌≡◌, Bool, true, false, not, ◌&&◌, Option, none, some, pos, arith, raise_if, Returns,
  Returns-ok, Returns-bind, Returns-after,
}
use localcloud_cli.Text.{Text, codes}
use localcloud_cli.Dict
use localcloud_cli.Dict.{Dict}
use localcloud_cli.Value.{bool, int, str, Items, get}
use localcloud_cli.Config.Fields.{invalid, boolean, port}
use localcloud_cli.Config.Fields.Bounds.{IsPort, port-Returns, passed}
use localcloud_cli.Config.Choices.{
  select_tls, variable_boolean, variable_port, with_default, is_reserved_tls_port,
}

-- TLS is on where the transparent network needs it, and then on a port that nothing else uses.
pub record IsTls (transparent enabled : Bool) (tls_port : ℕ) : Type 0 where
  pub port : IsPort tls_port
  pub transparent_enabled : transparent ≡ true → enabled ≡ true
  pub free : enabled ≡ true → is_reserved_tls_port transparent tls_port ≡ false

needed : (a b : Bool) → (a && not b) ≡ false → a ≡ true → b ≡ true
needed a b h k = ground arith

unused : (a b : Bool) → (a && b) ≡ false → a ≡ true → b ≡ false
unused a b h k = ground arith

variable_port-IsPort : (o : Option Text) (n : ℕ) → IsPort n → Returns IsPort (variable_port o n)
variable_port-IsPort none n h = Returns-ok n h
variable_port-IsPort (some t) n h = port-Returns (str t)

pub select_tls-IsTls :
    (section : Items) (variables : Dict Text) (transparent : Bool)
    → Returns (λ r. IsTls transparent r.0 r.1) (select_tls section variables transparent)
unfolding select_tls
select_tls-IsTls section variables transparent =
    Returns-after (boolean (with_default (get (codes "enabled") section) (bool false))) _
      λ configured _.
        Returns-bind (port (with_default (get (codes "port") section) (int (pos 5381)))) _
          (port-Returns _)
          λ configured_port p.
            Returns-after
              (variable_boolean (Dict.get (codes "LOCALCLOUD_TLS_ENABLED") variables) configured) _
              λ enabled _.
                Returns-bind
                  (variable_port (Dict.get (codes "LOCALCLOUD_TLS_PORT") variables) configured_port)
                  _ (variable_port-IsPort _ configured_port p)
                  λ tls_port q.
                    Returns-after (raise_if (transparent && not enabled) invalid) _ λ u a.
                      Returns-after
                        (raise_if (enabled && is_reserved_tls_port transparent tls_port) invalid) _
                        λ w b.
                          Returns-ok (enabled, tls_port)
                            (record {
                              port = q;
                              transparent_enabled =
                                  needed transparent enabled (passed _ invalid u a);
                              free = unused enabled _ (passed _ invalid w b);
                            })
