-- ===== src/Config/Load/WellFormed/Host.antt =====
-- The other settings of the host that `load_config` returns: variables, ports, data and names.
use localcloud_cli.Prelude.{
  ℕ, ◌≡◌, refl, Bool, true, not, ◌&&◌, ◌||◌, Option, none, some, All, all, ok, raise_if, ◌>>=◌,
  Returns, Returns-ok, Returns-raise, Returns-if, Returns-bind, Returns-after,
}
use localcloud_cli.Text.{Text, codes, ◌==◌, elem, starts_with, drop_prefix}
use localcloud_cli.Dict
use localcloud_cli.Dict.{Dict}
use localcloud_cli.Dict.Laws.{put-All}
use localcloud_cli.Value.{Value, null, bool, int, float, str, other, list, dict, Items, get}
use localcloud_cli.State.{Names, docker_name_pattern, default_resource_names}
use localcloud_cli.Config.Fields.{invalid, environment, environment_key_pattern}
use localcloud_cli.Config.Fields.Bounds.{
  IsUserVariable, environment-IsUserVariable, docker_name-Returns,
}
use localcloud_cli.Config.Ports.{port_range}
use localcloud_cli.Config.Ports.Ranges.{IsUserRange, port_range-IsUserRange}
use localcloud_cli.State.{ActiveRuntime}
use localcloud_cli.Config.Settings.{Surroundings, Arguments}
use localcloud_cli.Config.Choices.{
  with_tls, optional_range, data_mode, stored_names, active_for, argument_or, or_default,
  asks_embedded_docker,
}
use localcloud_cli.Config.Load.{select_environment, select_names}
use localcloud_cli.Value.{end}

-- `--tls` sets a variable that the user may set too.
with_tls-IsUserVariable :
    (tls : Option Bool) (variables : Dict Text)
    → All IsUserVariable variables
    → All IsUserVariable (with_tls tls variables)
unfolding environment_key_pattern starts_with drop_prefix all elem codes ◌==◌
with_tls-IsUserVariable none variables h = h
with_tls-IsUserVariable (some b) variables h = put-All IsUserVariable _ _ variables (refl, refl) h

abbrev pub IsOptionalRange : Option (ℕ × ℕ) → Type 0
IsOptionalRange none = Unit {0}
IsOptionalRange (some r) = IsUserRange r

parsed-IsOptionalRange : (v : Value) → Returns IsOptionalRange (port_range v >>= λ r. ok (some r))
parsed-IsOptionalRange v =
    Returns-after (port_range v) _ λ r h. Returns-ok (some r) (port_range-IsUserRange v r.0 r.1 h)

pub optional_range-IsOptionalRange :
    (argument : Option Text) (configured : Option Value)
    → Returns IsOptionalRange (optional_range argument configured)
optional_range-IsOptionalRange (some t) configured = parsed-IsOptionalRange (str t)
optional_range-IsOptionalRange none none = Returns-ok none tt
optional_range-IsOptionalRange none (some null) = Returns-ok none tt
optional_range-IsOptionalRange none (some (bool b)) = parsed-IsOptionalRange (bool b)
optional_range-IsOptionalRange none (some (int n)) = parsed-IsOptionalRange (int n)
optional_range-IsOptionalRange none (some (float t n)) = parsed-IsOptionalRange (float t n)
optional_range-IsOptionalRange none (some (str t)) = parsed-IsOptionalRange (str t)
optional_range-IsOptionalRange none (some (other t)) = parsed-IsOptionalRange (other t)
optional_range-IsOptionalRange none (some (list vs)) = parsed-IsOptionalRange (list vs)
optional_range-IsOptionalRange none (some (dict es)) = parsed-IsOptionalRange (dict es)

-- The data that a runtime keeps or drops.
abbrev pub IsDataMode : Text → Type 0
IsDataMode t = (t == codes "persistent" || t == codes "ephemeral") ≡ true

pub data_mode-Returns : (v : Value) → Returns IsDataMode (data_mode v)
unfolding data_mode
data_mode-Returns (str t) = Returns-if _ _ _ (λ h. Returns-ok t h) λ h. Returns-raise invalid
data_mode-Returns null = Returns-raise invalid
data_mode-Returns (bool b) = Returns-raise invalid
data_mode-Returns (int n) = Returns-raise invalid
data_mode-Returns (float t n) = Returns-raise invalid
data_mode-Returns (other t) = Returns-raise invalid
data_mode-Returns (list vs) = Returns-raise invalid
data_mode-Returns (dict es) = Returns-raise invalid

pub select_environment-IsUserVariable :
    (args : Arguments) (configured : Option Value) (docker : Bool)
    → Returns (All IsUserVariable) (select_environment args configured docker)
unfolding select_environment
select_environment-IsUserVariable args configured docker =
    Returns-after (environment (or_default configured (dict end))) _ λ variables e.
      Returns-after
        (asks_embedded_docker (Dict.get (codes "LOCALCLOUD_RUNTIME_EMBEDDED_DOCKER") variables)) _
        λ embedded _. Returns-after (raise_if (embedded && not docker) invalid) _ λ _ _.
          Returns-ok _
            (with_tls-IsUserVariable args.tls variables (environment-IsUserVariable _ variables e))

-- Names that Docker takes.
abbrev pub IsNames : Names → Type 0
IsNames n = (docker_name_pattern n.container ≡ true) × (docker_name_pattern n.network ≡ true)

pub select_names-IsNames :
    (w : Surroundings) (args : Arguments) (host : Items) (volume : Text)
    (active : Option ActiveRuntime)
    → Returns IsNames (select_names w args host volume active)
unfolding select_names
select_names-IsNames w args host volume active =
    Returns-after (default_resource_names w.hexdigest volume) _ λ defaults _.
      let names = stored_names (active_for volume active) defaults in
      Returns-bind _ _
        (docker_name-Returns (
          argument_or args.container_name
            (or_default (get (codes "container_name") host) (str names.container))))
        λ container h.
          Returns-bind _ _
            (docker_name-Returns (
              argument_or args.network_name
                (or_default (get (codes "network_name") host) (str names.network))))
            λ network k. Returns-ok _ (h, k)
