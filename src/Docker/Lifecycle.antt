-- ===== src/Docker/Lifecycle.antt =====
-- `DockerRuntime.start`, `restart` and `stop` of docker_runtime.py. The readiness of a runtime is the
-- environment's; while it is waited for, the daemon stays as it is.
pub mod Confined
use localcloud_cli.Prelude.{
  Bool, true, false, not, List, [], ◌∷◌, ◌++◌, Option, none, some, if◌then◌else◌, Result, ok, raise,
  raise_if, ◌>>=◌, ◌>>◌, host_error, container_changed, container_start_failed,
  container_restart_failed, container_stop_failed, cleanup_failed,
}
use localcloud_cli.Text.{Text, codes, ◌==◌}
use localcloud_cli.Docker.Store.{Container, Daemon, Faults, Cleanup, set_state}
use localcloud_cli.Docker.Resolve.{
  Target, RuntimeRecord, Readers, resolve, required, mutation_target,
}
use localcloud_cli.Docker.Children.{is_managed, owned_children}

abbrev pub Changed : Type 0
Changed = Result RuntimeRecord × Daemon

-- One child of `_stop_children`: one that does not run is left.
unfoldable pub stop_child : Faults → Container → Cleanup → Cleanup
unfolding ◌==◌ codes
stop_child f c (failures, d) =
    if not (d.state c.id == codes "running")
    then (failures, d)
    else if f.stop c.id
    then (failures ++ c.id ∷ [], d)
    else (failures, set_state c.id (codes "exited") d)

unfoldable pub stop_each : Faults → List Container → Cleanup → Cleanup
unfolding stop_child
stop_each f [] o = o
stop_each f (c ∷ cs) o = stop_each f cs (stop_child f c o)

-- `_stop_children`
abbrev pub stopped_children : Faults → List Text × List Container → Daemon → Cleanup
stopped_children f (failures, children) d = stop_each f children (failures, d)

module _ (w : Readers) (f : Faults) (t : Target) (wait_ready : Result (Unit {0})) where
  unfoldable pub current : Daemon → Result RuntimeRecord
  unfolding resolve
  current d = resolve w f d t >>= required w f d

  -- `_require_container_identity`
  unfoldable pub identified : Text → Daemon → Result RuntimeRecord
  unfolding current
  identified id d = do
    r ← current d
    raise_if (not (r.container_id == id)) (host_error container_changed)
    ok r

  -- What follows a start or a restart; the gateway is required with the readiness.
  unfoldable pub awaited : Text → Daemon → Result RuntimeRecord
  unfolding identified
  awaited id d = do r ← identified id d; wait_ready; identified id d

  unfoldable pub start_target : Result RuntimeRecord → Daemon → Changed
  unfolding awaited
  start_target (raise e) d = (raise e, d)
  start_target (ok r) d =
      if r.state == codes "running"
      then (awaited r.container_id d, d)
      else if f.start r.container_id
      then (raise (host_error container_start_failed), d)
      else (
        awaited r.container_id (set_state r.container_id (codes "running") d),
        set_state r.container_id (codes "running") d,
      )

  unfoldable pub start : Text → Daemon → Changed
  unfolding mutation_target start_target
  start id d = start_target (mutation_target w f d t id) d

  unfoldable pub restart_target : Result RuntimeRecord → Daemon → Changed
  unfolding awaited
  restart_target (raise e) d = (raise e, d)
  restart_target (ok r) d =
      if f.restart r.container_id then (raise (host_error container_restart_failed), d) else (
        awaited r.container_id (set_state r.container_id (codes "running") d),
        set_state r.container_id (codes "running") d,
      )

  unfoldable pub restart : Text → Daemon → Changed
  unfolding mutation_target restart_target
  restart id d = restart_target (mutation_target w f d t id) d

  abbrev pub stop_concluded : Cleanup → Changed
  stop_concluded ([], d) = (current d, d)
  stop_concluded (failure ∷ failures, d) = (raise (host_error cleanup_failed), d)

  -- What follows the stop of the container: the children of a managed one are stopped.
  unfoldable pub stop_children : RuntimeRecord → Daemon → Changed
  unfolding current owned_children stop_each
  stop_children r d =
      if is_managed r.container_owner
      then stop_concluded
          (stopped_children f (owned_children f r t.data_volume r.container_id none ([], d)) d)
      else (current d, d)

  unfoldable pub stop_target : Result RuntimeRecord → Daemon → Changed
  unfolding stop_children
  stop_target (raise e) d = (raise e, d)
  stop_target (ok r) d =
      if not (r.state == codes "running")
      then stop_children r d
      else if f.stop r.container_id
      then (raise (host_error container_stop_failed), d)
      else stop_children r (set_state r.container_id (codes "exited") d)

  unfoldable pub stop : Text → Daemon → Changed
  unfolding mutation_target stop_target
  stop id d = stop_target (mutation_target w f d t id) d
