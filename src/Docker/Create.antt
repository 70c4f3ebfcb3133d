-- ===== src/Docker/Create.antt =====
-- `DockerRuntime.create` of docker_runtime.py and its rollback.
pub mod Added
pub mod Rollback
pub mod Ran
pub mod Undone
use localcloud_cli.Prelude.{
  map, Bool, true, false, not, ◌&&◌, List, [], ◌∷◌, ◌++◌, Option, none, some, if◌then◌else◌,
  Exception, Result, ok, raise, raise_if, ◌>>=◌, ◌>>◌, host_error, runtime_exists,
  container_changed, resource_name_in_use, environment_create_failed, port_no_longer_available, any,
  keep_if,
}
use localcloud_cli.Text.{Text, codes, ◌==◌, elem}
use localcloud_cli.State.{validate_data_volume}
use localcloud_cli.Docker.Labels.{
  Labels, container, network, volume, Ownership, managed, base_labels, network_name_label,
  classify_resource,
}
use localcloud_cli.Docker.Store.{
  Mount, Container, Resource, Daemon, Faults, Cleanup, named_container, named_resource,
  get_optional, remove_verified, delete_container, delete_network, delete_volume, set_state,
}
use localcloud_cli.Docker.Resolve.{Target, RuntimeRecord, Readers, resolve, required}
use localcloud_cli.Docker.Calls.{
  Refusal, Run, refused, unstarted, up, Calls, Failure, host_failure, daemon_error, Progress,
  Attempt, created, failed, in_use, no_conflict, is_name_conflict, error_of,
}

abbrev pub anonymous_volume : Text → Resource
anonymous_volume name = record { id = name; name = name; labels = [] }

-- The daemon makes a container with its anonymous volumes.
abbrev pub add_container : Container → Text → Daemon → Daemon
add_container c state d = set_state c.id state (record d {
  containers = d.containers ++ c ∷ [];
  volumes = d.volumes ++ map anonymous_volume c.anonymous;
})

abbrev pub remove_made_container : Faults → Labels → Option Container → Cleanup → Cleanup
remove_made_container f expected none o = o
remove_made_container f expected (some c) o =
    remove_verified f c.id c.labels expected (delete_container c.id) o

abbrev pub remove_made_network : Faults → Labels → Option Resource → Cleanup → Cleanup
remove_made_network f expected none o = o
remove_made_network f expected (some n) o =
    remove_verified f n.id n.labels expected (delete_network n.id) o

abbrev pub remove_made_volume : Faults → Labels → Option Resource → Cleanup → Cleanup
remove_made_volume f expected none o = o
remove_made_volume f expected (some v) o =
    remove_verified f v.id v.labels expected (delete_volume v.id) o

abbrev pub in_state : Text → Daemon → Option Container → Option Container
in_state state d none = none
in_state state d (some c) = if d.state c.id == state then some c else none

module _ (w : Readers) (f : Faults) (k : Calls) (t : Target) where
  abbrev pub volume_labels : Labels
  volume_labels = base_labels t.data_volume volume

  -- `_network_labels`
  abbrev pub network_labels : Labels
  network_labels = base_labels t.data_volume network ++ (network_name_label, t.network_name) ∷ []

  abbrev pub new_container : Container
  new_container = record {
    id = k.container_id;
    name = t.container_name;
    labels = k.container_labels;
    mounts = k.mounts;
    anonymous = k.anonymous;
    networks = k.networks;
  }

  abbrev pub new_network : Resource
  new_network = record { id = k.network_id; name = t.network_name; labels = network_labels }

  abbrev pub new_volume : Resource
  new_volume = record { id = k.volume_id; name = t.data_volume; labels = volume_labels }

  -- `_require_container_identity` of the resolved runtime
  unfoldable pub own_record : Daemon → Result RuntimeRecord
  unfolding resolve
  own_record d = do
    found ← resolve w f d t
    current ← required w f d found
    raise_if (not (current.container_id == k.container_id)) (host_error container_changed)
    ok current

  unfoldable pub ready : Daemon → Result RuntimeRecord
  unfolding own_record
  ready d = do k.started_image; r ← own_record d; k.wait_ready; own_record d

  abbrev pub attempt_of : Result RuntimeRecord → Progress → Attempt
  attempt_of (raise e) p = failed (host_failure e) p
  attempt_of (ok r) p = created r p

  module _ (v n : Option Resource) where
    -- The locals before the run, and after it.
    abbrev pub before_run : Daemon → Progress
    before_run d = record {
      container = none;
      network = n;
      volume = v;
      run_attempted = false;
      daemon = d;
    }

    abbrev pub after_run : Option Container → Daemon → Progress
    after_run c d = record {
      container = c;
      network = n;
      volume = v;
      run_attempted = true;
      daemon = d;
    }

    abbrev pub run_started : Daemon → Attempt
    run_started d =
        if f.reload k.container_id
        then failed (daemon_error no_conflict) (after_run (some new_container) d)
        else attempt_of (ready d) (after_run (some new_container) d)

    abbrev pub ran : Run → Daemon → Attempt
    ran (refused r) d = failed (daemon_error r) (after_run none d)
    ran (unstarted port) d =
        failed (daemon_error (record { name_conflict = false; port_conflict = port }))
          (after_run none (add_container new_container (codes "created") d))
    ran up d = run_started (add_container new_container (codes "running") d)

    unfoldable pub run_step : Daemon → Attempt
    unfolding ready
    run_step d = ran k.run d

  abbrev pub made_network : Option Resource → Option Refusal → Daemon → Attempt
  made_network v (some r) d = failed (daemon_error r) (before_run v none d)
  made_network v none d =
      run_step v (some new_network) (record d { networks = d.networks ++ new_network ∷ [] })

  abbrev pub known_network : Option Resource → Result Ownership → Daemon → Attempt
  known_network v (raise e) d = failed (host_failure e) (before_run v none d)
  known_network v (ok managed) d = run_step v none d
  known_network v (ok owner) d = failed in_use (before_run v none d)

  -- `_network_for_create`
  abbrev pub network_for_create : Option Resource → Result (Option Resource) → Daemon → Attempt
  network_for_create v (raise e) d = failed (host_failure e) (before_run v none d)
  network_for_create v (ok none) d = made_network v k.create_network d
  network_for_create v (ok (some n)) d =
      known_network v (classify_resource false network t.data_volume n.name n.labels) d

  unfoldable pub with_network : Option Resource → Daemon → Attempt
  unfolding run_step classify_resource get_optional named_resource
  with_network v d =
      network_for_create v
        (get_optional f t.network_name (named_resource t.network_name d.networks)) d

  abbrev pub made_volume : Option Refusal → Daemon → Attempt
  made_volume (some r) d = failed (daemon_error r) (before_run none none d)
  made_volume none d =
      with_network (some new_volume) (record d { volumes = d.volumes ++ new_volume ∷ [] })

  abbrev pub known_volume : Result Ownership → Daemon → Attempt
  known_volume (raise e) d = failed (host_failure e) (before_run none none d)
  known_volume (ok owner) d = with_network none d

  -- `_volume_for_create`
  abbrev pub volume_for_create : Result (Option Resource) → Daemon → Attempt
  volume_for_create (raise e) d = failed (host_failure e) (before_run none none d)
  volume_for_create (ok none) d = made_volume k.create_volume d
  volume_for_create (ok (some v)) d =
      known_volume (classify_resource true volume t.data_volume v.name v.labels) d

  unfoldable pub with_volume : Daemon → Attempt
  unfolding with_network classify_resource get_optional named_resource
  with_volume d =
      volume_for_create (get_optional f t.data_volume (named_resource t.data_volume d.volumes)) d

  -- `_require_name_available`
  abbrev pub name_checked : Result (Option Container) → Daemon → Attempt
  name_checked (raise e) d = failed (host_failure e) (before_run none none d)
  name_checked (ok (some c)) d = failed in_use (before_run none none d)
  name_checked (ok none) d = with_volume d

  unfoldable pub attempt : Daemon → Attempt
  unfolding with_volume get_optional named_container
  attempt d =
      name_checked (get_optional f t.container_name (named_container t.container_name d.containers))
        d

  -- `_unstarted_container`
  unfoldable pub unstarted_container : Daemon → Option Container
  unfolding named_container
  unstarted_container d =
      if k.lookup_fails
      then none
      else in_state (codes "created") d (named_container t.container_name d.containers)

  abbrev pub left_behind : Option Container → Bool → Daemon → Option Container
  left_behind (some c) sought d = some c
  left_behind none sought d = if sought then unstarted_container d else none

  unfoldable pub made_container : Failure → Progress → Option Container
  unfolding unstarted_container
  made_container x p =
      left_behind p.container (p.run_attempted && not (is_name_conflict x)) p.daemon

  -- `_rollback_create`
  unfoldable pub rollback_create : Option Container → Progress → Cleanup
  unfolding remove_verified delete_container delete_network delete_volume
  rollback_create c p = remove_made_volume f volume_labels p.volume (
      remove_made_network f network_labels p.network
        (remove_made_container f k.container_labels c ([], p.daemon)))

  abbrev pub finished : Attempt → Result RuntimeRecord × Daemon
  finished (created r p) = (ok r, p.daemon)
  finished (failed x p) = (raise (error_of x), (rollback_create (made_container x p) p).1)

  abbrev pub prepared : Result (Unit {0}) → Daemon → Result RuntimeRecord × Daemon
  prepared (raise e) d = (raise e, d)
  prepared (ok u) d = finished (attempt d)

  abbrev pub checked_vacant : Result (Option RuntimeRecord) → Daemon → Result RuntimeRecord × Daemon
  checked_vacant (raise e) d = (raise e, d)
  checked_vacant (ok (some r)) d = (raise (host_error runtime_exists), d)
  checked_vacant (ok none) d = prepared k.prepare d

  unfoldable pub create : Daemon → Result RuntimeRecord × Daemon
  unfolding resolve attempt made_container rollback_create
  create d = checked_vacant (resolve w f d t) d
