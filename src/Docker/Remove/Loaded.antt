-- ===== src/Docker/Remove/Loaded.antt =====
-- A removal with the settings of `load_config`.
use localcloud_cli.Prelude.{◌≡◌, Bool, ok}
use localcloud_cli.Text.{Text}
use localcloud_cli.State.Naming.{validate_data_volume-valid}
use localcloud_cli.Config.Settings.{Surroundings, Arguments, LocalCloudConfig}
use localcloud_cli.Config.Select.Priority.{IsSuggestion}
use localcloud_cli.Config.Load.{load_config}
use localcloud_cli.Config.Load.WellFormed.{load_config-IsWellFormed}
use localcloud_cli.Config.Load.WellFormed.Volume.{IsHandedOver}
use localcloud_cli.Docker.Store.{Daemon, Faults}
use localcloud_cli.Docker.Resolve.{Target, Readers}
use localcloud_cli.Docker.Remove.{remove}
use localcloud_cli.Docker.Remove.Kept.{IsKept}
use localcloud_cli.Docker.Remove.Gone.{IsGone, removal-IsGone}
use localcloud_cli.Docker.Remove.Owned.{remove-IsKept}

-- What the Docker runtime reads of the settings.
abbrev pub target_of : LocalCloudConfig → Target
target_of c = record {
  data_volume = c.data_volume;
  container_name = c.container_name;
  network_name = c.network_name;
}

-- With the settings that `load_config` returns, whatever the document, the arguments, the
-- environment and the state file that they come from, and whatever fails in the removal, a removal
-- deletes nothing but the program's own resources and the anonymous volumes of its containers, and
-- where it returns, the container with the identity that it was given is gone; provided that the name
-- of the git repository makes a project ID or nothing, and that an active runtime that the caller
-- hands over has a valid data volume.
pub loaded-remove-IsKept :
    (s : Surroundings) (args : Arguments) (c : LocalCloudConfig) (d : Daemon) (w : Readers)
    (f : Faults) (remove_volume remove_network : Bool) (id : Text)
    → IsSuggestion s.git_project
    → IsHandedOver args.active
    → load_config s args ≡ ok c
    → IsKept d c.data_volume (remove w f (target_of c) remove_volume remove_network id d).1
      × IsGone w f
          (target_of c)
          remove_volume
          remove_network
          id
          (remove w f (target_of c) remove_volume remove_network id d)
loaded-remove-IsKept s args c d w f remove_volume remove_network id suggestion handed_over loaded =
    (
      remove-IsKept d w f (target_of c) remove_volume remove_network id (
          validate_data_volume-valid c.data_volume
            (load_config-IsWellFormed s suggestion args c handed_over loaded).data_volume),
      removal-IsGone w f (target_of c) remove_volume remove_network id d,
    )
