-- ===== src/Config/Load/WellFormed/Volume.antt =====
-- The data volume that `load_config` returns.
use localcloud_cli.Prelude.{
  ◌≡◌, refl, true, Option, none, some, all, Returns, Returns-ok, Returns-bind,
}
use localcloud_cli.Text.{Text, codes}
use localcloud_cli.Value.{Value, null, str}
use localcloud_cli.State.{data_volume_pattern, default_data_volume, validate_data_volume}
use localcloud_cli.State.Naming.{validate_data_volume-pattern}
use localcloud_cli.State.Store.Found.{IsChecked, load_active_runtime-IsChecked}
use localcloud_cli.Config.Document.{Diagnostics}
use localcloud_cli.State.{ActiveRuntime}
use localcloud_cli.Config.Settings.{Surroundings}
use localcloud_cli.Config.Choices.{find_active, select_data_volume, active_volume}

-- The active runtime that the caller hands over, if it does, has a valid data volume.
abbrev pub IsHandedOver : Option (Option ActiveRuntime) → Type 0
IsHandedOver none = Unit {0}
IsHandedOver (some none) = Unit {0}
IsHandedOver (some (some r)) = data_volume_pattern r.data_volume ≡ true

abbrev pub IsVolume : Text → Type 0
IsVolume t = data_volume_pattern t ≡ true

default-IsVolume : IsVolume default_data_volume
unfolding data_volume_pattern codes all
default-IsVolume = refl

active_volume-IsVolume : (o : Option ActiveRuntime) → IsChecked o → IsVolume (active_volume o)
active_volume-IsVolume none h = default-IsVolume
active_volume-IsVolume (some r) h = h.volume

pub find_active-IsVolume :
    (w : Surroundings) (active : Option (Option ActiveRuntime)) (requested : Option Text)
    (diagnostics : Diagnostics)
    → IsHandedOver active
    → Returns
        (λ found. IsVolume (active_volume found.0))
        (find_active w active requested diagnostics)
unfolding find_active
find_active-IsVolume w (some none) requested diagnostics h = Returns-ok _ default-IsVolume
find_active-IsVolume w (some (some r)) requested diagnostics h = Returns-ok _ h
find_active-IsVolume w none requested diagnostics h =
    Returns-bind _ _ (load_active_runtime-IsChecked w.hexdigest w.state_file requested)
      λ loaded k. Returns-ok _ (active_volume-IsVolume loaded.0 k)

validate_data_volume-IsVolume : (v : Value) → Returns IsVolume (validate_data_volume v)
validate_data_volume-IsVolume v = record { at = λ t e. validate_data_volume-pattern v t e }

pub select_data_volume-IsVolume :
    (argument : Option Text) (configured : Option Value) (active : Option ActiveRuntime)
    → IsVolume (active_volume active)
    → Returns IsVolume (select_data_volume argument configured active)
unfolding select_data_volume
select_data_volume-IsVolume (some v) configured active h = validate_data_volume-IsVolume (str v)
select_data_volume-IsVolume none none active h = Returns-ok _ h
select_data_volume-IsVolume none (some null) active h = Returns-ok _ h
select_data_volume-IsVolume none (some v) active h = validate_data_volume-IsVolume v
