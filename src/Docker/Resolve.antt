-- ===== src/Docker/Resolve.antt =====
-- `DockerRuntime.resolve` and `_mutation_target` of docker_runtime.py: the one container that uses
-- a data volume, and whose it and its network and volume are.
use localcloud_cli.Prelude.{
  is_nil, Bool, true, false, not, ◌&&◌, ◌||◌, List, [], ◌∷◌, Option, none, some, keep_if, any,
  if◌then◌else◌, Exception, Result, ok, raise, raise_if, ◌>>=◌, ◌>>◌, host_error,
  docker_inspect_failed, data_volume_collision, data_volume_missing, invalid_data_volume_mount,
  runtime_not_found, container_missing, container_changed, ownership_mismatch,
}
use localcloud_cli.Text.{Text, codes, ◌==◌, elem, is_empty}
use localcloud_cli.Dict
use localcloud_cli.Value.{str}
use localcloud_cli.State.{validate_data_volume}
use localcloud_cli.Docker.Labels.{
  Labels, container, network, volume, Ownership, attached, managed, missing, classify_resource,
  config_label, network_name_label, or_empty, is_text,
}
use localcloud_cli.Docker.Store.{
  Mount, Container, Resource, Daemon, Faults, named_resource, get_optional,
}

-- What `resolve` asks of the configuration.
pub record Target : Type 0 where
  pub data_volume : Text
  pub container_name : Text
  pub network_name : Text

-- The parts of `RuntimeRecord` that decide what is changed.
pub record RuntimeRecord : Type 0 where
  pub data_volume : Text
  pub container_id : Text
  pub state : Text
  pub labels : Labels
  pub network_name : Option Text
  pub container_owner : Ownership
  pub network_owner : Ownership
  pub volume_owner : Ownership

abbrev pub is_of : Text → Mount → Bool
is_of data_volume m = is_text data_volume m.volume_name

abbrev pub uses : Text → Container → Bool
uses data_volume c = not (is_nil (keep_if (is_of data_volume) c.mounts))

abbrev pub is_writable : Mount → Bool
is_writable m = elim m.read_write [ none ↦ not (elem (codes "ro") m.modes) | some b ↦ b ]

abbrev pub invalid_mount : Exception
invalid_mount = host_error invalid_data_volume_mount

-- `_validated_data_mount`
abbrev pub validated_data_mount : List Mount → Result Mount
validated_data_mount (m ∷ []) =
    if not (m.destination == codes "/var/lib/localcloud") || not (is_writable m)
    then raise invalid_mount
    else ok m
validated_data_mount ms = raise invalid_mount

-- The environment's part: which image a container may have, and the name of the network in the
-- settings of its configuration label, where these are a JSON object.
pub record Readers : Type 0 where
  pub compatible_image : Container → Ownership → Result (Unit {0})
  pub settings : Text → Option Text

abbrev pub default_networks : List Text
default_networks = codes "bridge" ∷ codes "host" ∷ codes "none" ∷ []

abbrev pub first_of : List Text → Option Text
first_of [] = none
first_of (name ∷ names) = some name

abbrev pub or_else : Option Text → Option Text → Option Text
or_else none o = o
or_else (some t) o = some t

abbrev pub some_text : Text → Option Text
some_text t = if is_empty t then none else some t

abbrev pub recorded_network : Text → Labels → List Text → Result (Option Text)
recorded_network recorded labels networks =
    let name =
      if is_empty recorded then or_empty (Dict.get network_name_label labels) else recorded in
    if not (is_nil networks) && not (elem name networks)
    then raise (host_error ownership_mismatch)
    else ok (some_text name)

abbrev pub with_settings : Option Text → Labels → List Text → Result (Option Text)
with_settings none labels networks = raise (host_error ownership_mismatch)
with_settings (some recorded) labels networks = recorded_network recorded labels networks

-- `_container_metadata` and `_container_network`; the networks are sorted
abbrev pub container_network : Readers → Target → Container → Ownership → Result (Option Text)
container_network w t c managed =
    with_settings (w.settings (or_empty (Dict.get config_label c.labels))) c.labels c.networks
container_network w t c owner =
    if elem t.network_name c.networks
    then ok (some t.network_name)
    else ok (
        or_else (first_of (keep_if (λ n. not (elem n default_networks)) c.networks))
          (first_of c.networks))

abbrev pub network_ownership : Text → Ownership → Option Resource → Result Ownership
network_ownership data_volume managed none = ok missing
network_ownership data_volume owner none = ok attached
network_ownership data_volume owner (some r) =
    classify_resource false network data_volume r.name r.labels

module _ (w : Readers) (f : Faults) (d : Daemon) where
  abbrev pub find_network : Option Text → Result (Option Resource)
  find_network none = ok none
  find_network (some name) = get_optional f name (named_resource name d.networks)

  abbrev pub require_volume : Option Resource → Result Resource
  require_volume none = raise (host_error data_volume_missing)
  require_volume (some r) = ok r

  unfoldable pub record_of : Target → Option Resource → Container → Result RuntimeRecord
  unfolding classify_resource Dict.get elem keep_if get_optional named_resource
  record_of t found c = do
    v ← require_volume found
    mount ← validated_data_mount (keep_if (is_of t.data_volume) c.mounts)
    owner ← classify_resource false container t.data_volume c.name c.labels
    w.compatible_image c owner
    name ← container_network w t c owner
    n ← find_network name
    network_owner ← network_ownership t.data_volume owner n
    volume_owner ← classify_resource true volume t.data_volume v.name v.labels
    ok (record {
      data_volume = t.data_volume;
      container_id = c.id;
      state = d.state c.id;
      labels = c.labels;
      network_name = name;
      container_owner = owner;
      network_owner = network_owner;
      volume_owner = volume_owner;
    })

  abbrev pub resolved : Target → Option Resource → List Container → Result (Option RuntimeRecord)
  resolved t found [] = ok none
  resolved t found (c ∷ []) = record_of t found c >>= λ r. ok (some r)
  resolved t found (c ∷ e ∷ cs) = raise (host_error data_volume_collision)

  unfoldable pub resolve : Target → Result (Option RuntimeRecord)
  unfolding record_of validate_data_volume keep_if any get_optional named_resource
  resolve t = do
    data_volume ← validate_data_volume (str t.data_volume)
    found ← get_optional f data_volume (named_resource data_volume d.volumes)
    raise_if f.list (host_error docker_inspect_failed)
    let users = keep_if (uses data_volume) d.containers
    raise_if (any (λ (c : Container). f.reload c.id) users) (host_error docker_inspect_failed)
    resolved (record t { data_volume = data_volume }) found users

  abbrev pub required : Option RuntimeRecord → Result RuntimeRecord
  required none = raise (host_error runtime_not_found)
  required (some r) = ok r

  -- `_mutation_target`: the container that is to be changed is the one that uses the data volume.
  unfoldable pub mutation_target : Target → Text → Result RuntimeRecord
  unfolding resolve any
  mutation_target t container_id = do
    raise_if (is_empty container_id) (host_error container_missing)
    raise_if
        (f.inspect container_id || not (any (λ (c : Container). c.id == container_id) d.containers))
        (host_error container_missing)
    found ← resolve t
    current ← required found
    raise_if (not (current.container_id == container_id)) (host_error container_changed)
    ok current
