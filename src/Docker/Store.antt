-- ===== src/Docker/Store.antt =====
-- The resources that the Docker daemon keeps, and the calls of docker_runtime.py that remove them.
-- An identity is never used twice, and labels are fixed when a resource is made. Which calls fail is
-- the environment's choice.
use localcloud_cli.Prelude.{
  Bool, not, ◌||◌, List, [], ◌∷◌, ◌++◌, Option, none, some, if◌then◌else◌, keep_if, any, Result, ok,
  raise, host_error, docker_inspect_failed,
}
use localcloud_cli.Text.{Text, ◌==◌, elem}
use localcloud_cli.Docker.Labels.{Labels, matches, is_text}

-- A mount: the volume that it is of, where it is of one, its destination, and whether it can be
-- written, which older daemons say in `Mode`.
pub record Mount : Type 0 where
  pub volume_name : Option Text
  pub destination : Text
  pub read_write : Option Bool
  pub modes : List Text

-- `anonymous` names the volumes that the daemon made itself for mounts of the container.
pub record Container : Type 0 where
  pub id : Text
  pub name : Text
  pub labels : Labels
  pub mounts : List Mount
  pub anonymous : List Text
  pub networks : List Text

-- A network or a volume.
pub record Resource : Type 0 where
  pub id : Text
  pub name : Text
  pub labels : Labels

pub record Daemon : Type 0 where
  pub containers : List Container
  pub networks : List Resource
  pub volumes : List Resource
  pub state : Text → Text

-- The calls that fail: by the identity of a resource or by its name, or of a list.
pub record Faults : Type 0 where
  pub list : Bool
  pub list_children : Bool
  pub inspect : Text → Bool
  pub reload : Text → Bool
  pub start : Text → Bool
  pub restart : Text → Bool
  pub stop : Text → Bool
  pub remove : Text → Bool

-- `_get_optional`: what has the name, where there is one
unfoldable pub named_container : Text → List Container → Option Container
named_container name [] = none
named_container name (c ∷ cs) = if c.name == name then some c else named_container name cs

unfoldable pub named_resource : Text → List Resource → Option Resource
named_resource name [] = none
named_resource name (r ∷ rs) = if r.name == name then some r else named_resource name rs

unfoldable pub get_optional : {A : Type 0} → Faults → Text → Option A → Result (Option A)
get_optional f name found =
    if f.inspect name then raise (host_error docker_inspect_failed) else ok found

unfoldable pub without_container : Text → List Container → List Container
unfolding keep_if
without_container id cs = keep_if (λ c. not (c.id == id)) cs

unfoldable pub without_resource : Text → List Resource → List Resource
unfolding keep_if
without_resource id rs = keep_if (λ r. not (r.id == id)) rs

-- The failures by the identities of the resources, and the daemon.
abbrev pub Cleanup : Type 0
Cleanup = List Text × Daemon

-- `_remove_verified`, with its `resource.remove(**kwargs)` as `removed`: a resource whose labels are not the expected ones is not removed.
unfoldable pub remove_verified :
    Faults → Text → Labels → Labels → (Daemon → Daemon) → Cleanup → Cleanup
unfolding matches
remove_verified f id labels expected removed (failures, d) =
    if not (matches labels expected)
    then (failures ++ id ∷ [], d)
    else if f.remove id
    then (failures ++ id ∷ [], d)
    else (failures, removed d)

-- The anonymous volumes of a container.
unfoldable pub anonymous_of : Text → List Container → List Text
anonymous_of id [] = []
anonymous_of id (c ∷ cs) = if c.id == id then c.anonymous else anonymous_of id cs

-- A container mounts the volume.
unfoldable pub is_mounted : Text → List Container → Bool
unfolding any
is_mounted name cs =
    any (λ (c : Container). any (λ (m : Mount). is_text name m.volume_name) c.mounts) cs

-- The volumes but for the anonymous ones of a container that no other container mounts.
unfoldable pub without_anonymous : Text → List Container → List Resource → List Resource
unfolding keep_if anonymous_of is_mounted without_container elem
without_anonymous id cs vs =
    keep_if
      (λ (v : Resource).
        not (elem v.name (anonymous_of id cs)) || is_mounted v.name (without_container id cs))
      vs

-- container.remove(force=True, v=True), which removes a container that runs too, and its anonymous
-- volumes with it
unfoldable pub delete_container : Text → Daemon → Daemon
unfolding without_container without_anonymous
delete_container id d = record d {
  containers = without_container id d.containers;
  volumes = without_anonymous id d.containers d.volumes;
}

unfoldable pub delete_network : Text → Daemon → Daemon
unfolding without_resource
delete_network id d = record d { networks = without_resource id d.networks }

unfoldable pub delete_volume : Text → Daemon → Daemon
unfolding without_resource
delete_volume id d = record d { volumes = without_resource id d.volumes }

-- container.stop()
abbrev pub set_state : Text → Text → Daemon → Daemon
set_state id state d = record d { state = λ i. if i == id then state else d.state i }
