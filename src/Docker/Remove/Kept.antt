-- ===== src/Docker/Remove/Kept.antt =====
-- What each step of a clean-up keeps: nothing goes but what is the program's own.
use mathlib.Core.List.{Memᴰ}
use localcloud_cli.Prelude.{
  ◌≡◌, refl, sym, ap, ◌∙◌, ◌⊎◌, inl, inr, Bool, Bool-cases, true, false, not, ◌&&◌, ◌||◌, List, [],
  ◌∷◌, Option, none, some, and-eq-true, if_both, if_cases, arith,
}
use localcloud_cli.Text.{Text, codes, ◌==◌, elem}
use localcloud_cli.Text.Laws.{==_iff}
use localcloud_cli.Dict
use localcloud_cli.Docker.Labels.{
  Labels, Ownership, attached, managed, missing, managed_label, child_managed_label,
  child_service_label, instance_label, config_hash_label, is_text, is_filled, or_empty, matches,
}
use localcloud_cli.Docker.Store.{
  Container, Resource, Daemon, Faults, Cleanup, remove_verified, delete_container, delete_network,
  delete_volume, anonymous_of, without_anonymous, without_container, without_resource, set_state,
}
use localcloud_cli.Docker.Resolve.{RuntimeRecord}
use localcloud_cli.Docker.Remove.{remove}
use localcloud_cli.Docker.Children.{
  is_managed, is_legacy_child, is_new_child, is_child, remove_each, is_served, expected_child,
}
use localcloud_cli.Docker.Remove.Selected.{not-false}
use localcloud_cli.Docker.Remove.Own.{IsManaged, IsOwnContainer, IsOwnNetwork, IsOwnVolume}
use localcloud_cli.Docker.Remove.Selected.{IsRecord}
use localcloud_cli.Docker.Remove.Removed.{
  IsCleaned, base-IsCleaned, keep_if-IsCleaned, delete-IsCleaned, is_text-same, matches-get,
}

and_true : (a b : Bool) → (a && b) ≡ true → (a ≡ true) × (b ≡ true)
and_true a b h = and-eq-true a b h

pub is_managed-same : (o : Ownership) → is_managed o ≡ true → o ≡ managed
is_managed-same managed h = refl
is_managed-same attached h = cc
is_managed-same missing h = cc

pub expected_child-IsManaged :
    (r : RuntimeRecord) (data_volume : Text) (labels : Labels)
    → matches labels (expected_child r data_volume labels) ≡ true
    → IsManaged labels
unfolding expected_child
expected_child-IsManaged r data_volume labels h =
    matches-get labels (expected_child r data_volume labels) managed_label (codes "true") h
      (Memᴰ.head refl)

or_cases : (a b : Bool) → (a || b) ≡ true → (a ≡ true) ⊎ (b ≡ true)
or_cases true b h = inl refl
or_cases false b h = inr h

last_of_four : (a b c d : Bool) → (a && b && c && d) ≡ true → d ≡ true
last_of_four a b c d h = ground arith

all_of :
    (a b c d e : Bool)
    → (a && b && c && d && e) ≡ true
    → (a ≡ true) × (b ≡ true) × (c ≡ true) × (d ≡ true) × (e ≡ true)
all_of true true true true true h = (refl, refl, refl, refl, refl)
all_of true true true true false h = cc
all_of true true true false e h = cc
all_of true true false d e h = cc
all_of true false c d e h = cc
all_of false b c d e h = cc

is_filled-some : (o : Option Text) → is_filled o ≡ true → o ≡ some (or_empty o)
is_filled-some none h = cc
is_filled-some (some t) h = refl

is_legacy_child-same :
    (r : RuntimeRecord) (labels : Labels)
    → is_legacy_child r labels ≡ true
    → (r.container_owner ≡ managed)
      × (Dict.get instance_label labels ≡ Dict.get instance_label r.labels)
      × (Dict.get config_hash_label labels ≡ Dict.get config_hash_label r.labels)
unfolding is_legacy_child
is_legacy_child-same r labels h =
    let (owner, i, k, instance, hash) = all_of _ _ _ _ _ h in
    (
      is_managed-same r.container_owner owner,
      is_text-same _ _ instance ∙ sym (is_filled-some _ i),
      is_text-same _ _ hash ∙ sym (is_filled-some _ k),
    )

named : (a b : Bool) → (not a || b) ≡ false → a ≡ true
named a b h = ground arith

-- An anonymous volume of an identity is one of a container with that identity.
anonymous_of-Memᴰ :
    (name id : Text) (cs : List Container)
    → elem name (anonymous_of id cs) ≡ true
    → (k : Container) × Memᴰ k cs × (k.id ≡ id) × (elem name k.anonymous ≡ true)
unfolding anonymous_of elem
anonymous_of-Memᴰ name id [] h = cc
anonymous_of-Memᴰ name id (c ∷ cs) h = elim (Bool-cases (c.id == id)) [
  | inl fits ↦ (c, Memᴰ.head refl, (==_iff c.id id).0 fits, rw (fits, anonymous_of) at h)
  | inr fails ↦
      let (k, there, same, made) = anonymous_of-Memᴰ name id cs (rw (fails, anonymous_of) at h) in
      (k, Memᴰ.tail there, same, made)
]

module _ (base : Daemon) (data_volume : Text) where
  -- Nothing is gone from the daemon but what is the program's own.
  pub record IsKept (d : Daemon) : Type 0 where
    pub containers :
        IsCleaned
          (λ (c : Container). c.id)
          (IsOwnContainer data_volume base.containers)
          base.containers
          d.containers
    pub networks : IsCleaned (λ (n : Resource). n.id) IsOwnNetwork base.networks d.networks
    pub volumes :
        IsCleaned
          (λ (v : Resource). v.id)
          (IsOwnVolume data_volume base.containers)
          base.volumes
          d.volumes

  pub base-IsKept : IsKept base
  base-IsKept = record {
    containers = base-IsCleaned _ _ _;
    networks = base-IsCleaned _ _ _;
    volumes = base-IsCleaned _ _ _;
  }

  pub set_state-IsKept : (id state : Text) (d : Daemon) → IsKept d → IsKept (set_state id state d)
  set_state-IsKept id state d h = record {
    containers = h.containers;
    networks = h.networks;
    volumes = h.volumes;
  }

  pub delete_container-IsKept :
      (c : Container) (d : Daemon)
      → Memᴰ c base.containers
      → IsOwnContainer data_volume base.containers c
      → IsKept d
      → IsKept (delete_container c.id d)
  unfolding delete_container without_container without_anonymous
  delete_container-IsKept c d there own h = record {
    containers = delete-IsCleaned _ _ _ c d.containers there own h.containers;
    networks = h.networks;
    volumes =
        keep_if-IsCleaned _ _ _ _ d.volumes
          (λ v m gone.
            let (k, k_there, same, made) =
              anonymous_of-Memᴰ v.name c.id d.containers (named _ _ gone) in
            inr (c, k, there, h.containers.was k k_there, own, same, made))
          h.volumes;
  }

  pub delete_network-IsKept :
      (n : Resource) (d : Daemon)
      → Memᴰ n base.networks
      → IsOwnNetwork n
      → IsKept d
      → IsKept (delete_network n.id d)
  unfolding delete_network without_resource
  delete_network-IsKept n d there own h = record {
    containers = h.containers;
    networks = delete-IsCleaned _ _ _ n d.networks there own h.networks;
    volumes = h.volumes;
  }

  pub delete_volume-IsKept :
      (v : Resource) (d : Daemon)
      → Memᴰ v base.volumes
      → IsOwnVolume data_volume base.containers v
      → IsKept d
      → IsKept (delete_volume v.id d)
  unfolding delete_volume without_resource
  delete_volume-IsKept v d there own h = record {
    containers = h.containers;
    networks = h.networks;
    volumes = delete-IsCleaned _ _ _ v d.volumes there own h.volumes;
  }

  -- A resource is removed only if its labels are the expected ones.
  pub remove_verified-IsKept :
      (f : Faults) (id : Text) (labels expected : Labels) (removed : Daemon → Daemon) (o : Cleanup)
      → (matches labels expected ≡ true → IsKept (removed o.1))
      → IsKept o.1
      → IsKept (remove_verified f id labels expected removed o).1
  unfolding remove_verified
  remove_verified-IsKept f id labels expected removed (failures, d) remove h =
      if_cases (λ (o : Cleanup). IsKept o.1) (not (matches labels expected)) _ _ (λ e. h)
        λ e. if_both (λ (o : Cleanup). IsKept o.1) (f.remove id) _ _ h (remove (not-false _ e))

  -- What is claimed as a child, and has the labels of the claim, is one.
  pub child-IsOwn :
      (r : RuntimeRecord) (parent : Text) (services : Option (List Text)) (c : Container)
      → IsRecord data_volume base.containers r
      → is_child r data_volume parent services c ≡ true
      → IsManaged c.labels
      → IsOwnContainer data_volume base.containers c
  unfolding is_child is_new_child
  child-IsOwn r parent services c h claim own =
      let claimed =
        last_of_four (is_text (codes "true") (Dict.get child_managed_label c.labels))
          (not (c.id == parent)) (is_served services (Dict.get child_service_label c.labels))
          (is_new_child data_volume c.labels || is_legacy_child r c.labels) claim in
      elim (or_cases _ _ claimed) [
        | inl new ↦ inl (own, is_text-same data_volume _ new)
        | inr legacy ↦
            let (owner, instance, hash) = is_legacy_child-same r c.labels legacy in
            inr (
              h.from,
              h.there,
              h.owner owner,
              own,
              instance ∙ ap (Dict.get instance_label) h.labels,
              hash ∙ ap (Dict.get config_hash_label) h.labels,
            )
      ]

  pub remove_each-IsKept :
      (f : Faults) (r : RuntimeRecord) (parent : Text) (services : Option (List Text))
      (cs : List Container) (o : Cleanup)
      → IsRecord data_volume base.containers r
      → ((c : Container)
          → Memᴰ c cs
          → Memᴰ c base.containers × (is_child r data_volume parent services c ≡ true))
      → IsKept o.1
      → IsKept (remove_each f r data_volume cs o).1
  unfolding remove_each
  remove_each-IsKept f r parent services [] o made claims h = h
  remove_each-IsKept f r parent services (c ∷ cs) o made claims h =
      let (there, claim) = claims c (Memᴰ.head refl) in
      remove_each-IsKept f r parent services cs _ made (λ e m. claims e (Memᴰ.tail m))
        (remove_verified-IsKept f c.id c.labels (expected_child r data_volume c.labels)
          (delete_container c.id) o
          (λ same.
            delete_container-IsKept c o.1 there
              (child-IsOwn r parent services c made claim
                (expected_child-IsManaged r data_volume c.labels same))
              h)
          h)
