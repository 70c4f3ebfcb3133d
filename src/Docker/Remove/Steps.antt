-- ===== src/Docker/Remove/Steps.antt =====
-- What the steps of `remove` keep that follow the removal of the children.
use mathlib.Core.List.{Memᴰ}
use mathlib.Core.List.Memᴰ
use localcloud_cli.Prelude.{
  ◌≡◌, refl, sym, subst, inl, Bool, true, false, not, ◌&&◌, List, [], ◌∷◌, Option, none, some,
  if_both, Result, ok, raise,
}
use localcloud_cli.Text.{Text, codes}
use localcloud_cli.Docker.Labels.{
  Labels, network, volume, managed, managed_label, role_label, matches, removal_base_labels,
}
use localcloud_cli.Docker.Store.{
  Resource, Daemon, Faults, Cleanup, delete_container, delete_network, delete_volume,
}
use localcloud_cli.Docker.Resolve.{Target, RuntimeRecord, Readers}
use localcloud_cli.Docker.Remove.{
  teardown_network, teardown_volume, has_others, Removal, concluded, record_container_labels,
  after_volume, volume_step, after_network, network_step, container_step, after_children,
}
use localcloud_cli.Docker.Children.{is_managed, only_if}
use localcloud_cli.Docker.Remove.Own.{IsOwnNetwork, IsDataVolume}
use localcloud_cli.Docker.Remove.Selected.{IsRecord}
use localcloud_cli.Docker.Remove.Kept.{
  IsKept, delete_container-IsKept, delete_network-IsKept, delete_volume-IsKept,
  remove_verified-IsKept,
}
use localcloud_cli.Docker.Remove.Removed.{get_optional-ok, named_resource-Memᴰ, matches-get}

pub only_if-Memᴰ : {A : Type 0} (b : Bool) (x : A) (xs : List A) → Memᴰ x (only_if b xs) → Memᴰ x xs
only_if-Memᴰ true x xs m = m
only_if-Memᴰ false x xs m = absurd (Memᴰ.not-nil m)

network-IsOwn :
    (n : Resource) (data_volume : Text)
    → matches n.labels (removal_base_labels n.labels network data_volume) ≡ true
    → IsOwnNetwork n
unfolding removal_base_labels
network-IsOwn n data_volume h = (
  matches-get n.labels _ managed_label (codes "true") h (Memᴰ.head refl),
  matches-get n.labels _ role_label (codes "network") h (Memᴰ.tail (Memᴰ.head refl)),
)

removal_base_labels-volume :
    (labels : Labels) (data_volume : Text)
    → Memᴰ (managed_label, codes "true") (removal_base_labels labels volume data_volume)
      × Memᴰ (role_label, codes "volume") (removal_base_labels labels volume data_volume)
unfolding removal_base_labels
removal_base_labels-volume labels data_volume =
    if_both
      (λ (l : Labels). Memᴰ (managed_label, codes "true") l × Memᴰ (role_label, codes "volume") l) _
      _ _ (Memᴰ.head refl, Memᴰ.tail (Memᴰ.head refl)) (Memᴰ.head refl, Memᴰ.tail (Memᴰ.head refl))

volume-IsOwn :
    (v : Resource) (data_volume : Text)
    → v.name ≡ data_volume
    → matches v.labels (removal_base_labels v.labels volume data_volume) ≡ true
    → IsDataVolume data_volume v
volume-IsOwn v data_volume called h =
    let (own, role) = removal_base_labels-volume v.labels data_volume in
    (
      matches-get v.labels _ managed_label (codes "true") h own,
      matches-get v.labels _ role_label (codes "volume") h role,
      called,
    )

module _ (base : Daemon) (w : Readers) (f : Faults) (t : Target)
    (remove_volume remove_network : Bool) where
  abbrev pub Kept : Removal → Type 0
  Kept o = IsKept base t.data_volume o.1

  concluded-Kept : (o : Cleanup) → IsKept base t.data_volume o.1 → Kept (concluded o)
  concluded-Kept ([], d) h = h
  concluded-Kept (failure ∷ failures, d) h = h

  after_volume-Kept :
      (r : Result (Option Resource)) (o : Cleanup)
      → ((v : Resource) → r ≡ ok (some v) → Memᴰ v o.1.volumes × (v.name ≡ t.data_volume))
      → IsKept base t.data_volume o.1
      → Kept (after_volume w f t remove_volume remove_network r o)
  unfolding teardown_volume
  after_volume-Kept (raise e) (failures, d) found h = h
  after_volume-Kept (ok none) o found h = concluded-Kept o h
  after_volume-Kept (ok (some v)) o found h =
      let (there, called) = found v refl in
      concluded-Kept _ (
        remove_verified-IsKept base t.data_volume f v.id v.labels _ (delete_volume v.id) o
          (λ same.
            delete_volume-IsKept base t.data_volume v o.1 (h.volumes.was v there)
              (inl (volume-IsOwn v t.data_volume called same)) h)
          h)

  volume_step-Kept :
      (r : RuntimeRecord) (o : Cleanup)
      → IsKept base t.data_volume o.1
      → Kept (volume_step w f t remove_volume remove_network r o)
  unfolding volume_step
  volume_step-Kept r (failures, d) h =
      if_both Kept (remove_volume && is_managed r.volume_owner) _ _
        (after_volume-Kept _ (failures, d)
          (λ v e.
            named_resource-Memᴰ t.data_volume d.volumes v
              (get_optional-ok f t.data_volume _ (some v) e))
          h)
        (concluded-Kept (failures, d) h)

  teardown_network-IsKept :
      (n : Resource) (o : Cleanup)
      → Memᴰ n o.1.networks
      → IsKept base t.data_volume o.1
      → IsKept base t.data_volume (teardown_network f t (some n) o).1
  unfolding teardown_network
  teardown_network-IsKept n (failures, d) there h =
      if_both (λ (o : Cleanup). IsKept base t.data_volume o.1)
        (not (f.reload n.id) && has_others n.name t.container_name d) _ _ h
        (remove_verified-IsKept base t.data_volume f n.id n.labels
          (removal_base_labels n.labels network t.data_volume) (delete_network n.id) (failures, d)
          (λ same.
            delete_network-IsKept base t.data_volume n d (h.networks.was n there)
              (network-IsOwn n t.data_volume same) h)
          h)

  after_network-Kept :
      (r : RuntimeRecord) (n : Result (Option Resource)) (o : Cleanup)
      → ((m : Resource) → n ≡ ok (some m) → Memᴰ m o.1.networks)
      → IsKept base t.data_volume o.1
      → Kept (after_network w f t remove_volume remove_network r n o)
  unfolding teardown_network
  after_network-Kept r (raise e) (failures, d) found h = h
  after_network-Kept r (ok none) o found h = volume_step-Kept r o h
  after_network-Kept r (ok (some n)) o found h =
      volume_step-Kept r (teardown_network f t (some n) o)
        (teardown_network-IsKept n o (found n refl) h)

  network_step-Kept :
      (r : RuntimeRecord) (name : Option Text) (o : Cleanup)
      → IsKept base t.data_volume o.1
      → Kept (network_step w f t remove_volume remove_network r name o)
  network_step-Kept r none o h = volume_step-Kept r o h
  network_step-Kept r (some name) (failures, d) h =
      if_both Kept (remove_network && is_managed r.network_owner) _ _
        (after_network-Kept r _ (failures, d)
          (λ n e. (named_resource-Memᴰ name d.networks n (get_optional-ok f name _ (some n) e)).0)
          h)
        (volume_step-Kept r (failures, d) h)

  container_step-Kept :
      (r : RuntimeRecord) (expected : Result Labels) (d : Daemon)
      → IsRecord t.data_volume base.containers r
      → r.container_owner ≡ managed
      → IsKept base t.data_volume d
      → Kept (container_step w f t remove_volume remove_network r expected d)
  container_step-Kept r (raise e) d made own h = h
  container_step-Kept r (ok expected) d made own h = network_step-Kept r r.network_name _ (
      remove_verified-IsKept base t.data_volume f r.container_id r.labels expected
        (delete_container r.container_id) ([], d)
        (λ same.
          subst (λ id. IsKept base t.data_volume (delete_container id d)) (sym made.id)
            (delete_container-IsKept base t.data_volume made.from d made.there
              (inl (made.owner own)) h))
        h)

  pub after_children-Kept :
      (r : RuntimeRecord) (o : Cleanup)
      → IsRecord t.data_volume base.containers r
      → r.container_owner ≡ managed
      → IsKept base t.data_volume o.1
      → Kept (after_children w f t remove_volume remove_network r o)
  after_children-Kept r (failure ∷ failures, d) made own h = h
  after_children-Kept r ([], d) made own h =
      container_step-Kept r (record_container_labels r) d made own h
