-- ===== src/Docker/Create/Undone.antt =====
-- `create` makes a runtime, or leaves the resources of the daemon as they were.
use localcloud_cli.Prelude.{
  ◌≡◌, refl, ap, true, false, [], ◌∷◌, ◌++◌, Option, none, some, Result, ok, raise,
}
use localcloud_cli.Docker.Labels.{
  network, volume, Ownership, attached, managed, missing, classify_resource,
}
use localcloud_cli.Docker.Store.{Container, Resource, Daemon, Faults, named_container}
use localcloud_cli.Docker.Resolve.{Target, RuntimeRecord, Readers}
use localcloud_cli.Docker.Remove.Removed.{get_optional-ok}
use localcloud_cli.Docker.Create.{
  new_network, new_volume, before_run, made_network, known_network, network_for_create,
  with_network, made_volume, known_volume, volume_for_create, with_volume, name_checked, attempt,
  made_container, prepared, checked_vacant, create,
}
use localcloud_cli.Docker.Calls.{
  Refusal, Calls, Failure, host_failure, daemon_error, Attempt, failed, in_use,
}
use localcloud_cli.Docker.Create.Rollback
use localcloud_cli.Docker.Create.Rollback.{CanUndo, IsAllOrNothing}
use localcloud_cli.Docker.Create.Ran

module _ (w : Readers) (f : Faults) (k : Calls) (t : Target) (base : Daemon)
    (can : CanUndo f k t base) where
  abbrev IsUndoable : Attempt → Type 0
  IsUndoable = Rollback.IsUndoable w f k t base can

  abbrev IsBefore : Option Resource → Option Resource → Daemon → Type 0
  IsBefore = Ran.IsBefore w f k t base can

  module _ (v : Option Resource) where
    -- A failure before the run leaves what was made.
    early :
        (x : Failure) (d : Daemon)
        → IsBefore v none d
        → IsUndoable (failed x (before_run w f k t v none d))
    unfolding made_container
    early x d h = (d.volumes, (h.containers, refl), h.networks, h.volumes)

    made_network-IsUndoable :
        (o : Option Refusal) (d : Daemon)
        → IsBefore v none d
        → IsUndoable (made_network w f k t v o d)
    made_network-IsUndoable (some r) d h = early (daemon_error r) d h
    made_network-IsUndoable none d h =
        Ran.run_step-IsUndoable w f k t base can v (some (new_network w f k t)) _ (record {
          containers = h.containers;
          vacant = h.vacant;
          networks = (refl, ap (λ xs. xs ++ new_network w f k t ∷ []) h.networks);
          volumes = h.volumes;
        })

    known_network-IsUndoable :
        (o : Result Ownership) (d : Daemon)
        → IsBefore v none d
        → IsUndoable (known_network w f k t v o d)
    known_network-IsUndoable (raise e) d h = early (host_failure e) d h
    known_network-IsUndoable (ok managed) d h = Ran.run_step-IsUndoable w f k t base can v none d h
    known_network-IsUndoable (ok attached) d h = early in_use d h
    known_network-IsUndoable (ok missing) d h = early in_use d h

    network_for_create-IsUndoable :
        (o : Result (Option Resource)) (d : Daemon)
        → IsBefore v none d
        → IsUndoable (network_for_create w f k t v o d)
    network_for_create-IsUndoable (raise e) d h = early (host_failure e) d h
    network_for_create-IsUndoable (ok none) d h = made_network-IsUndoable k.create_network d h
    network_for_create-IsUndoable (ok (some n)) d h =
        known_network-IsUndoable (classify_resource false network t.data_volume n.name n.labels) d h

    with_network-IsUndoable :
        (d : Daemon) → IsBefore v none d → IsUndoable (with_network w f k t v d)
    unfolding with_network
    with_network-IsUndoable d h = network_for_create-IsUndoable _ d h

  made_volume-IsUndoable :
      (o : Option Refusal) → IsBefore none none base → IsUndoable (made_volume w f k t o base)
  made_volume-IsUndoable (some r) h = early none (daemon_error r) base h
  made_volume-IsUndoable none h =
      with_network-IsUndoable (some (new_volume w f k t)) _
        (record { containers = refl; vacant = h.vacant; networks = refl; volumes = (refl, refl) })

  known_volume-IsUndoable :
      (o : Result Ownership) → IsBefore none none base → IsUndoable (known_volume w f k t o base)
  known_volume-IsUndoable (raise e) h = early none (host_failure e) base h
  known_volume-IsUndoable (ok owner) h = with_network-IsUndoable none base h

  volume_for_create-IsUndoable :
      (o : Result (Option Resource))
      → IsBefore none none base
      → IsUndoable (volume_for_create w f k t o base)
  volume_for_create-IsUndoable (raise e) h = early none (host_failure e) base h
  volume_for_create-IsUndoable (ok none) h = made_volume-IsUndoable k.create_volume h
  volume_for_create-IsUndoable (ok (some v)) h =
      known_volume-IsUndoable (classify_resource true volume t.data_volume v.name v.labels) h

  name_checked-IsUndoable :
      (o : Result (Option Container))
      → (o ≡ ok none → named_container t.container_name base.containers ≡ none)
      → IsUndoable (name_checked w f k t o base)
  unfolding made_container with_volume
  name_checked-IsUndoable (raise e) h = (base.volumes, (refl, refl), refl, refl)
  name_checked-IsUndoable (ok (some c)) h = (base.volumes, (refl, refl), refl, refl)
  name_checked-IsUndoable (ok none) h =
      volume_for_create-IsUndoable _
        (record { containers = refl; vacant = h refl; networks = refl; volumes = refl })

  attempt-IsUndoable : IsUndoable (attempt w f k t base)
  unfolding attempt
  attempt-IsUndoable = name_checked-IsUndoable _ λ e.
      get_optional-ok f t.container_name (named_container t.container_name base.containers) none e

  prepared-IsAllOrNothing :
      (o : Result (Unit {0})) → IsAllOrNothing w f k t base (prepared w f k t o base)
  prepared-IsAllOrNothing (raise e) = (refl, refl, refl)
  prepared-IsAllOrNothing (ok u) =
      Rollback.finished-IsAllOrNothing w f k t base can (attempt w f k t base) attempt-IsUndoable

  checked_vacant-IsAllOrNothing :
      (o : Result (Option RuntimeRecord))
      → IsAllOrNothing w f k t base (checked_vacant w f k t o base)
  checked_vacant-IsAllOrNothing (raise e) = (refl, refl, refl)
  checked_vacant-IsAllOrNothing (ok (some r)) = (refl, refl, refl)
  checked_vacant-IsAllOrNothing (ok none) = prepared-IsAllOrNothing k.prepare

-- Wherever the creation of a runtime fails, also where the daemon made the container and could not
-- start it, it leaves the containers, the networks and the volumes of the daemon as they were,
-- provided that the calls of its rollback succeed and that what the daemon makes has new identities
-- and new names; and where it succeeds, the runtime that it returns
-- is the container that it added.
pub create-IsAllOrNothing :
    (w : Readers) (f : Faults) (k : Calls) (t : Target) (d : Daemon)
    → CanUndo f k t d
    → IsAllOrNothing w f k t d (create w f k t d)
unfolding create
create-IsAllOrNothing w f k t d can = checked_vacant-IsAllOrNothing w f k t d can _
