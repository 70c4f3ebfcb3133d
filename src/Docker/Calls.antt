-- ===== src/Docker/Calls.antt =====
-- What `DockerRuntime.create` of docker_runtime.py meets: the calls of the daemon, and its locals.
use localcloud_cli.Prelude.{
  Bool, false, List, Option, if◌then◌else◌, Exception, Result, host_error, resource_name_in_use,
  environment_create_failed, port_no_longer_available,
}
use localcloud_cli.Text.{Text}
use localcloud_cli.Docker.Labels.{Labels}
use localcloud_cli.Docker.Store.{Mount, Container, Resource, Daemon}
use localcloud_cli.Docker.Resolve.{RuntimeRecord}

-- What an error of the daemon says.
pub record Refusal : Type 0 where
  pub name_conflict : Bool
  pub port_conflict : Bool

-- What `containers.run` does. It makes the container before it starts it; a conflict of names is
-- found before it is made.
pub data Run : Type 0 where
  refused : Refusal → Run
  unstarted : (port_conflict : Bool) → Run
  up : Run

-- The daemon's part and the environment's: the identities of what is made, the arguments of the run
-- plan, and which of the calls fail.
pub record Calls : Type 0 where
  pub container_id : Text
  pub network_id : Text
  pub volume_id : Text
  pub container_labels : Labels
  pub mounts : List Mount
  pub anonymous : List Text
  pub networks : List Text
  pub prepare : Result (Unit {0})
  pub create_volume : Option Refusal
  pub create_network : Option Refusal
  pub run : Run
  pub started_image : Result (Unit {0})
  pub wait_ready : Result (Unit {0})
  pub lookup_fails : Bool

pub data Failure : Type 0 where
  host_failure : Exception → Failure
  daemon_error : Refusal → Failure

-- The locals that the rollback reads, and the daemon.
pub record Progress : Type 0 where
  pub container : Option Container
  pub network : Option Resource
  pub volume : Option Resource
  pub run_attempted : Bool
  pub daemon : Daemon

pub data Attempt : Type 0 where
  created : RuntimeRecord → Progress → Attempt
  failed : Failure → Progress → Attempt

abbrev pub in_use : Failure
in_use = host_failure (host_error resource_name_in_use)

abbrev pub no_conflict : Refusal
no_conflict = record { name_conflict = false; port_conflict = false }

-- `_is_name_conflict`
abbrev pub is_name_conflict : Failure → Bool
is_name_conflict (host_failure e) = false
is_name_conflict (daemon_error r) = r.name_conflict

abbrev pub error_of : Failure → Exception
error_of (host_failure e) = e
error_of (daemon_error r) =
    if r.port_conflict
    then host_error port_no_longer_available
    else host_error environment_create_failed
