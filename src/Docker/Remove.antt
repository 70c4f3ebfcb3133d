-- ===== src/Docker/Remove.antt =====
-- `DockerRuntime.remove` of docker_runtime.py and the clean-up that it calls.
pub mod Own
pub mod Removed
pub mod Selected
pub mod Kept
pub mod Steps
pub mod Owned
pub mod Gone
pub mod Loaded
use localcloud_cli.Prelude.{
  is_nil, Bool, true, false, not, ◌&&◌, ◌||◌, List, [], ◌∷◌, ◌++◌, Option, none, some, keep_if, any,
  all, if◌then◌else◌, Result, ok, raise, raise_if, ◌>>=◌, ◌>>◌, host_error, ownership_forbidden,
  ownership_mismatch, container_stop_failed, cleanup_failed,
}
use localcloud_cli.Text.{Text, codes, ◌==◌, elem}
use localcloud_cli.Dict
use localcloud_cli.Docker.Labels.{
  Labels, Role, container, network, volume, Ownership, attached, managed, missing, managed_label,
  instance_label, config_hash_label, volume_name_label, child_managed_label, child_service_label,
  container_metadata_labels, is_text, is_filled, has_label, or_empty, base_labels,
  removal_base_labels, matches,
}
use localcloud_cli.Docker.Store.{
  Container, Resource, Daemon, Faults, Cleanup, named_resource, get_optional, remove_verified,
  delete_container, delete_network, delete_volume, set_state,
}
use localcloud_cli.Docker.Resolve.{Target, RuntimeRecord, Readers, mutation_target}
use localcloud_cli.Docker.Children.{
  is_managed, is_legacy_child, is_new_child, is_served, expected_child, is_child, identities,
  only_if, put_labels, owned_children, remove_each, removed_children, remove_children,
}

-- `_record_container_labels`
unfoldable pub record_container_labels : RuntimeRecord → Result Labels
unfolding all has_label Dict.get
record_container_labels r =
    if not (all (has_label r.labels) container_metadata_labels)
    then raise (host_error ownership_mismatch)
    else ok (put_labels r.labels container_metadata_labels (base_labels r.data_volume container))

-- The containers that run on a network, but for one name.
unfoldable pub has_others : Text → Text → Daemon → Bool
unfolding any elem
has_others network_name container_name d =
    any
      (λ (c : Container).
        elem network_name c.networks
        && d.state c.id == codes "running"
        && not (c.name == container_name))
      d.containers

-- `_teardown_network_if_owned` of a network that is known as managed; one that cannot be reloaded
-- is removed if it is free, which the daemon checks.
unfoldable pub teardown_network : Faults → Target → Option Resource → Cleanup → Cleanup
unfolding has_others remove_verified removal_base_labels delete_network
teardown_network f t none o = o
teardown_network f t (some n) (failures, d) =
    if not (f.reload n.id) && has_others n.name t.container_name d
    then (failures, d)
    else remove_verified f n.id n.labels (removal_base_labels n.labels network t.data_volume)
        (delete_network n.id) (failures, d)

-- `_teardown_volume_if_owned` of a volume that is known as managed
unfoldable pub teardown_volume : Faults → Target → Option Resource → Cleanup → Cleanup
unfolding remove_verified removal_base_labels delete_volume
teardown_volume f t none o = o
teardown_volume f t (some v) o =
    remove_verified f v.id v.labels (removal_base_labels v.labels volume t.data_volume)
      (delete_volume v.id) o

abbrev pub Removal : Type 0
Removal = Result (Unit {0}) × Daemon

abbrev pub concluded : Cleanup → Removal
concluded ([], d) = (ok tt, d)
concluded (failure ∷ failures, d) = (raise (host_error cleanup_failed), d)

-- `_replaced_child_services`
abbrev pub is_some_name : Option Text → Bool
is_some_name none = false
is_some_name (some name) = true

abbrev pub replaced_child_services : Bool → Bool → RuntimeRecord → Option (List Text)
replaced_child_services remove_volume remove_network r =
    if (remove_volume && is_managed r.volume_owner)
      || (remove_network && is_managed r.network_owner && is_some_name r.network_name)
    then none
    else some (codes "cloudsql-mysql" ∷ [])

module _ (w : Readers) (f : Faults) (t : Target) (remove_volume remove_network : Bool) where
  abbrev pub after_volume : Result (Option Resource) → Cleanup → Removal
  after_volume (raise e) (failures, d) = (raise e, d)
  after_volume (ok v) o = concluded (teardown_volume f t v o)

  unfoldable pub volume_step : RuntimeRecord → Cleanup → Removal
  unfolding teardown_volume get_optional named_resource
  volume_step r (failures, d) =
      if remove_volume && is_managed r.volume_owner
      then after_volume (get_optional f t.data_volume (named_resource t.data_volume d.volumes))
          (failures, d)
      else concluded (failures, d)

  abbrev pub after_network : RuntimeRecord → Result (Option Resource) → Cleanup → Removal
  after_network r (raise e) (failures, d) = (raise e, d)
  after_network r (ok n) o = volume_step r (teardown_network f t n o)

  abbrev pub network_step : RuntimeRecord → Option Text → Cleanup → Removal
  network_step r none o = volume_step r o
  network_step r (some name) (failures, d) =
      if remove_network && is_managed r.network_owner
      then after_network r (get_optional f name (named_resource name d.networks)) (failures, d)
      else volume_step r (failures, d)

  abbrev pub container_step : RuntimeRecord → Result Labels → Daemon → Removal
  container_step r (raise e) d = (raise e, d)
  container_step r (ok expected) d =
      network_step r r.network_name (
        remove_verified f r.container_id r.labels expected (delete_container r.container_id)
          ([], d))

  abbrev pub after_children : RuntimeRecord → Cleanup → Removal
  after_children r (failure ∷ failures, d) = (raise (host_error cleanup_failed), d)
  after_children r ([], d) = container_step r (record_container_labels r) d

  unfoldable pub after_stop : RuntimeRecord → Daemon → Removal
  unfolding remove_children record_container_labels volume_step teardown_network remove_verified
      get_optional named_resource delete_container
  after_stop r d =
      after_children r (
        remove_children f r t.data_volume (replaced_child_services remove_volume remove_network r)
          d)

  -- `_stop_container`, and what follows it
  abbrev pub removed_target : Result RuntimeRecord → Daemon → Removal
  removed_target (raise e) d = (raise e, d)
  removed_target (ok r) d =
      if not (is_managed r.container_owner)
      then (raise (host_error ownership_forbidden), d)
      else if not (r.state == codes "running")
      then after_stop r d
      else if f.stop r.container_id
      then (raise (host_error container_stop_failed), d)
      else after_stop r (set_state r.container_id (codes "exited") d)

  unfoldable pub remove : Text → Daemon → Removal
  unfolding mutation_target after_stop
  remove container_id d = removed_target (mutation_target w f d t container_id) d
