-- ===== src/Docker/Tests.antt =====
-- Removals and creations at a concrete daemon.
use mathlib.Core.List.{Memᴰ}
use mathlib.Core.List.Memᴰ
use localcloud_cli.Prelude.{
  raise, none, host_error, ◌≡◌, refl, sym, subst, inl, inr, port_no_longer_available, true, false,
  [], ◌∷◌, ◌++◌, some, ok, keep_if, any, all,
}
use localcloud_cli.Text.{Text, codes, ◌==◌, elem, strip, is_space}
use localcloud_cli.Text.Laws.{==_refl}
use localcloud_cli.Dict
use localcloud_cli.Value.{str}
use localcloud_cli.State.{data_volume_pattern, validate_data_volume}
use localcloud_cli.Config.Tests.{surroundings, no_arguments, settings, loaded}
use localcloud_cli.Docker.Labels.{
  managed_label, Labels, container, network, volume, config_hash_label, config_path_label,
  config_label, network_name_label, data_label, base_labels, has_label, classify_resource,
  is_legacy_volume, removal_base_labels, matches,
}
use localcloud_cli.Docker.Store.{
  Container, Resource, Daemon, Faults, named_container, named_resource, get_optional, anonymous_of,
  is_mounted, without_anonymous, without_container, without_resource, remove_verified,
  delete_container, delete_network, delete_volume,
}
use localcloud_cli.Docker.Resolve.{Target, Readers, record_of, resolve, mutation_target}
use localcloud_cli.Docker.Remove.{
  record_container_labels, has_others, teardown_network, teardown_volume, volume_step, after_stop,
  remove,
}
use localcloud_cli.Docker.Children.{
  is_legacy_child, is_new_child, expected_child, is_child, put_labels, owned_children, remove_each,
  remove_children,
}
use localcloud_cli.Docker.Create.{
  anonymous_volume, own_record, ready, run_step, with_network, with_volume, attempt,
  unstarted_container, made_container, rollback_create, create,
}
use localcloud_cli.Docker.Calls.{Run, unstarted, Calls}
use localcloud_cli.Docker.Create.Added.{IsFresh}
use localcloud_cli.Docker.Create.Rollback.{IsAllOrNothing}
use localcloud_cli.Docker.Create.Undone.{create-IsAllOrNothing}
use localcloud_cli.Docker.Lifecycle.{
  stop_child, stop_each, current, stop_children, stop_target, stop,
}
use localcloud_cli.Docker.Lifecycle.Confined.{IsConfined, stopping, act, act-IsConfined}
use localcloud_cli.Docker.Remove.Loaded.{target_of, loaded-remove-IsKept}
use localcloud_cli.Docker.Remove.Gone.{IsGone, IsWithout, remove-IsGone}
use localcloud_cli.Docker.Remove.Kept.{IsKept}
use localcloud_cli.Docker.Remove.Owned.{remove-IsKept}

abbrev own_labels : Labels
own_labels =
    base_labels (codes "localcloud-data") container
    ++ (config_hash_label, codes "h")
      ∷ (config_path_label, codes "p")
      ∷ (config_label, codes "{}")
      ∷ (network_name_label, codes "net")
      ∷ (data_label, codes "d")
      ∷ []

abbrev own : Container
own = record {
  id = codes "1";
  name = codes "localcloud";
  labels = own_labels;
  mounts =
      record {
        volume_name = some (codes "localcloud-data");
        destination = codes "/var/lib/localcloud";
        read_write = some true;
        modes = [];
      }
      ∷ [];
  anonymous = codes "a" ∷ [];
  networks = codes "net" ∷ [];
}

-- A container of another program.
abbrev foreign : Container
foreign = record {
  id = codes "2";
  name = codes "postgres";
  labels = [];
  mounts = [];
  anonymous = codes "b" ∷ [];
  networks = codes "net" ∷ [];
}

abbrev net : Resource
net = record {
  id = codes "n";
  name = codes "net";
  labels = base_labels (codes "localcloud-data") network;
}

abbrev vol : Resource
vol = record {
  id = codes "v";
  name = codes "localcloud-data";
  labels = base_labels (codes "localcloud-data") volume;
}

abbrev daemon : Daemon
daemon = record {
  containers = own ∷ foreign ∷ [];
  networks = net ∷ [];
  volumes = vol ∷ anonymous_volume (codes "a") ∷ anonymous_volume (codes "b") ∷ [];
  state = λ id. codes "running";
}

abbrev no_faults : Faults
no_faults = record {
  list = false;
  list_children = false;
  inspect = λ name. false;
  reload = λ id. false;
  start = λ id. false;
  restart = λ id. false;
  stop = λ id. false;
  remove = λ id. false;
}

abbrev readers : Readers
readers = record { compatible_image = λ c owner. ok tt; settings = λ t. some (codes "net") }

abbrev target : Target
target = record {
  data_volume = codes "localcloud-data";
  container_name = codes "localcloud";
  network_name = codes "net";
}

-- What a run of the modules computes through.
runs : Unit {0}
unfolding codes ◌==◌ elem strip is_space data_volume_pattern any all keep_if Dict.get Dict.put
    validate_data_volume has_label classify_resource is_legacy_volume removal_base_labels matches
    anonymous_of is_mounted without_anonymous named_container named_resource get_optional
    without_container without_resource remove_verified delete_container delete_network delete_volume
    record_of resolve mutation_target is_legacy_child is_new_child expected_child is_child
    put_labels owned_children remove_each remove_children record_container_labels has_others
    teardown_network teardown_volume volume_step after_stop remove
runs = tt

-- The network stays, since another container runs on it.
removed : (remove readers no_faults target true true (codes "1") daemon).0 ≡ ok tt
unfolding runs
removed = refl

left : (remove readers no_faults target true true (codes "1") daemon).1.containers ≡ foreign ∷ []
unfolding runs
left = refl

left_networks : (remove readers no_faults target true true (codes "1") daemon).1.networks ≡ net ∷ []
unfolding runs
left_networks = refl

-- The data volume goes, and the anonymous volume of the container with it.
left_volumes :
    (remove readers no_faults target true true (codes "1") daemon).1.volumes
    ≡ anonymous_volume (codes "b") ∷ []
unfolding runs
left_volumes = refl

valid : validate_data_volume (str (codes "localcloud-data")) ≡ ok (codes "localcloud-data")
unfolding runs
valid = refl

stopped :
    (stop readers no_faults target (ok tt) (codes "1") daemon).1.state (codes "1") ≡ codes "exited"
unfolding runs stop_child stop_each current stop_children stop_target stop
stopped = refl

act-IsConfined_example :
    IsConfined daemon
      (codes "localcloud-data")
      (codes "1")
      (act stopping readers no_faults target (ok tt) (codes "1") daemon).1
act-IsConfined_example =
    act-IsConfined stopping readers no_faults target (ok tt) (codes "1") daemon valid

loaded-remove-IsKept_example :
    IsKept daemon
      (codes "localcloud-data")
      (remove readers no_faults (target_of settings) true true (codes "1") daemon).1
    × IsGone readers no_faults
        (target_of settings)
        true
        true
        (codes "1")
        (remove readers no_faults (target_of settings) true true (codes "1") daemon)
loaded-remove-IsKept_example =
    loaded-remove-IsKept surroundings no_arguments settings daemon readers no_faults true true
      (codes "1") tt tt loaded

remove-IsGone_example :
    IsWithout (codes "1") (remove readers no_faults target true true (codes "1") daemon).1
remove-IsGone_example = remove-IsGone readers no_faults target true true (codes "1") daemon removed

remove-IsKept_example :
    IsKept daemon
      (codes "localcloud-data")
      (remove readers no_faults target true true (codes "1") daemon).1
remove-IsKept_example = remove-IsKept daemon readers no_faults target true true (codes "1") valid

-- A daemon without a runtime of the program.
abbrev vacant : Daemon
vacant = record daemon { containers = foreign ∷ []; volumes = []; networks = [] }

abbrev calls : Run → Calls
calls run = record {
  container_id = codes "7";
  network_id = codes "8";
  volume_id = codes "9";
  container_labels = (managed_label, codes "true") ∷ [];
  mounts = own.mounts;
  anonymous = codes "c" ∷ [];
  networks = own.networks;
  prepare = ok tt;
  create_volume = none;
  create_network = none;
  run = run;
  started_image = ok tt;
  wait_ready = ok tt;
  lookup_fails = false;
}

runs_create : Unit {0}
unfolding runs own_record ready run_step with_network with_volume attempt unstarted_container
    made_container rollback_create create
runs_create = tt

foreign-IsFresh :
    (id : Text) → (codes "2" == id) ≡ false → IsFresh (λ (c : Container). c.id) id vacant.containers
foreign-IsFresh id h y m = elim (Memᴰ.cases_cons m) [
  | inl same ↦ subst (λ (c : Container). (c.id == id) ≡ false) (sym same) h
  | inr later ↦ absurd (Memᴰ.not-nil later)
]

apart : (codes "2" == codes "7") ≡ false
unfolding runs
apart = refl

one_label :
    (key value : Text)
    → Memᴰ {A = Text × Text} (key, value) ((managed_label, codes "true") ∷ [])
    → Dict.get key ((managed_label, codes "true") ∷ []) ≡ some value
unfolding Dict.get
one_label key value m = elim (Memᴰ.cases_cons m) [
  | inl same ↦
      subst (λ (e : Text × Text). Dict.get e.0 ((managed_label, codes "true") ∷ []) ≡ some e.1)
        (sym same) (rw (==_refl managed_label) refl)
  | inr later ↦ absurd (Memᴰ.not-nil later)
]

foreign-mounts :
    (name : Text) → elem name (codes "c" ∷ []) ≡ true → is_mounted name vacant.containers ≡ false
unfolding is_mounted any
foreign-mounts name h = refl

apart_name : elem (codes "localcloud-data") (codes "c" ∷ []) ≡ false
unfolding runs
apart_name = refl

-- A run that makes the container and cannot start it.
create-IsAllOrNothing_example :
    IsAllOrNothing readers no_faults
      (calls (unstarted true))
      target
      vacant
      (create readers no_faults (calls (unstarted true)) target vacant)
create-IsAllOrNothing_example =
    create-IsAllOrNothing readers no_faults (calls (unstarted true)) target vacant (record {
      container = foreign-IsFresh (codes "7") apart;
      network = λ n m. absurd (Memᴰ.not-nil m);
      volume = λ v m. absurd (Memᴰ.not-nil m);
      anonymous = record { volumes = λ v m. absurd (Memᴰ.not-nil m); mounts = foreign-mounts };
      anonymous_name = apart_name;
      labels = one_label;
      removes_container = refl;
      removes_network = refl;
      removes_volume = refl;
      looks_up = refl;
    })

undone :
    (create readers no_faults (calls (unstarted true)) target vacant).0
    ≡ raise (host_error port_no_longer_available)
unfolding runs_create
undone = refl
