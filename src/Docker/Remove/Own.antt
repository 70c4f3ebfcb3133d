-- ===== src/Docker/Remove/Own.antt =====
-- Which resources are the program's own, by their labels.
use mathlib.Core.List.{Memᴰ}
use localcloud_cli.Prelude.{◌≡◌, ◌⊎◌, List, some, true}
use localcloud_cli.Text.{Text, codes, elem}
use localcloud_cli.Dict
use localcloud_cli.Docker.Labels.{
  Labels, managed_label, instance_label, config_hash_label, volume_name_label, role_label,
}
use localcloud_cli.Docker.Store.{Container, Resource}

abbrev pub IsManaged : Labels → Type 0
IsManaged labels = Dict.get managed_label labels ≡ some (codes "true")

-- A container of the program for the data volume.
abbrev pub IsOfVolume : Text → Container → Type 0
IsOfVolume data_volume c =
    IsManaged c.labels × (Dict.get volume_name_label c.labels ≡ some data_volume)

-- A child of an older release has the instance and the configuration hash of its runtime.
abbrev pub IsLegacyChild : Text → List Container → Container → Type 0
IsLegacyChild data_volume cs c =
    (k : Container) × Memᴰ k cs
    × IsOfVolume data_volume k
    × IsManaged c.labels
    × (Dict.get instance_label c.labels ≡ Dict.get instance_label k.labels)
    × (Dict.get config_hash_label c.labels ≡ Dict.get config_hash_label k.labels)

abbrev pub IsOwnContainer : Text → List Container → Container → Type 0
IsOwnContainer data_volume cs c = IsOfVolume data_volume c ⊎ IsLegacyChild data_volume cs c

abbrev pub IsOwnNetwork : Resource → Type 0
IsOwnNetwork n = IsManaged n.labels × (Dict.get role_label n.labels ≡ some (codes "network"))

abbrev pub IsDataVolume : Text → Resource → Type 0
IsDataVolume data_volume v =
    IsManaged v.labels
    × (Dict.get role_label v.labels ≡ some (codes "volume"))
    × (v.name ≡ data_volume)

-- A volume that the daemon made itself for a container of the program.
abbrev pub IsAnonymousVolume : Text → List Container → Resource → Type 0
IsAnonymousVolume data_volume cs v =
    (c k : Container) × Memᴰ c cs
    × Memᴰ k cs
    × IsOwnContainer data_volume cs c
    × (k.id ≡ c.id)
    × (elem v.name k.anonymous ≡ true)

abbrev pub IsOwnVolume : Text → List Container → Resource → Type 0
IsOwnVolume data_volume cs v = IsDataVolume data_volume v ⊎ IsAnonymousVolume data_volume cs v
