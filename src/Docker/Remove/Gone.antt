-- ===== src/Docker/Remove/Gone.antt =====
-- After a removal that returns, the container is gone.
use mathlib.Core.List.{Memᴰ}
use localcloud_cli.Prelude.{
  ◌≡◌, refl, subst, Bool, true, false, not, ◌&&◌, ◌||◌, List, [], ◌∷◌, ◌++◌, Option, none, some,
  any, if_both, arith, Result, ok, raise, raise_if, Returns, Returns-ok, Returns-after,
  Returns-bind, Returns-raise_if,
}
use localcloud_cli.Text.{Text, codes, ◌==◌, is_empty}
use localcloud_cli.Text.Laws.{==_iff}
use localcloud_cli.Docker.Labels.{Labels, network, volume, matches, removal_base_labels}
use localcloud_cli.Docker.Store.{
  Container, Resource, Daemon, Faults, Cleanup, remove_verified, delete_container, delete_network,
  delete_volume, without_container,
}
use localcloud_cli.Docker.Resolve.{
  Target, RuntimeRecord, Readers, resolve, required, mutation_target,
}
use localcloud_cli.Docker.Children.{is_managed}
use localcloud_cli.Docker.Remove.{
  has_others, teardown_network, teardown_volume, Removal, concluded, record_container_labels,
  after_volume, volume_step, after_network, network_step, container_step, after_children,
  after_stop, removed_target, remove,
}
use localcloud_cli.Docker.Remove.Removed.{Memᴰ-keep_if}
use localcloud_cli.Docker.Remove.Selected.{not-false}

abbrev pub IsWithout : Text → Daemon → Type 0
IsWithout id d = (c : Container) → Memᴰ c d.containers → (c.id == id) ≡ false

-- The container is gone where nothing failed.
abbrev IsClean : Text → Cleanup → Type 0
IsClean id o = o.0 ≡ [] → IsWithout id o.1

append_filled : (ts : List Text) (t : Text) → ts ++ t ∷ [] ≡ [] → ⊥
append_filled [] t h = cc
append_filled (s ∷ ts) t h = cc

true-not : (b : Bool) → not b ≡ true → b ≡ false
true-not b h = ground arith

remove_verified-IsClean :
    (f : Faults) (gone id : Text) (labels expected : Labels) (removed : Daemon → Daemon)
    (o : Cleanup)
    → (o.0 ≡ [] → IsWithout gone (removed o.1))
    → IsClean gone (remove_verified f id labels expected removed o)
unfolding remove_verified
remove_verified-IsClean f gone id labels expected removed (failures, d) h =
    if_both (IsClean gone) (not (matches labels expected)) _ _
      (λ e. absurd (append_filled failures id e))
      (if_both (IsClean gone) (f.remove id) _ _ (λ e. absurd (append_filled failures id e)) h)

delete_container-IsWithout : (id : Text) (d : Daemon) → IsWithout id (delete_container id d)
unfolding delete_container without_container
delete_container-IsWithout id d c m =
    true-not _ (Memᴰ-keep_if (λ (x : Container). not (x.id == id)) c d.containers m).1

module _ (w : Readers) (f : Faults) (t : Target) (remove_volume remove_network : Bool)
    (id : Text) where
  abbrev pub IsGone : Removal → Type 0
  IsGone (raise e, d) = Unit
  IsGone (ok u, d) = IsWithout id d

  concluded-IsGone : (o : Cleanup) → IsClean id o → IsGone (concluded o)
  concluded-IsGone ([], d) h = h refl
  concluded-IsGone (failure ∷ failures, d) h = tt

  after_volume-IsGone :
      (v : Result (Option Resource)) (o : Cleanup)
      → IsClean id o
      → IsGone (after_volume w f t remove_volume remove_network v o)
  unfolding teardown_volume delete_volume
  after_volume-IsGone (raise e) (failures, d) h = tt
  after_volume-IsGone (ok none) o h = concluded-IsGone o h
  after_volume-IsGone (ok (some v)) o h = concluded-IsGone _ (
      remove_verified-IsClean f id v.id v.labels (removal_base_labels v.labels volume t.data_volume)
        (delete_volume v.id) o h)

  volume_step-IsGone :
      (r : RuntimeRecord) (o : Cleanup)
      → IsClean id o
      → IsGone (volume_step w f t remove_volume remove_network r o)
  unfolding volume_step
  volume_step-IsGone r (failures, d) h =
      if_both IsGone (remove_volume && is_managed r.volume_owner) _ _
        (after_volume-IsGone _ (failures, d) h) (concluded-IsGone (failures, d) h)

  teardown_network-IsClean :
      (n : Resource) (o : Cleanup) → IsClean id o → IsClean id (teardown_network f t (some n) o)
  unfolding teardown_network delete_network
  teardown_network-IsClean n (failures, d) h =
      if_both (IsClean id) (not (f.reload n.id) && has_others n.name t.container_name d) _ _ h (
        remove_verified-IsClean f id n.id n.labels
          (removal_base_labels n.labels network t.data_volume) (delete_network n.id) (failures, d)
          h)

  after_network-IsGone :
      (r : RuntimeRecord) (n : Result (Option Resource)) (o : Cleanup)
      → IsClean id o
      → IsGone (after_network w f t remove_volume remove_network r n o)
  unfolding teardown_network
  after_network-IsGone r (raise e) (failures, d) h = tt
  after_network-IsGone r (ok none) o h = volume_step-IsGone r o h
  after_network-IsGone r (ok (some n)) o h =
      volume_step-IsGone r (teardown_network f t (some n) o) (teardown_network-IsClean n o h)

  network_step-IsGone :
      (r : RuntimeRecord) (name : Option Text) (o : Cleanup)
      → IsClean id o
      → IsGone (network_step w f t remove_volume remove_network r name o)
  network_step-IsGone r none o h = volume_step-IsGone r o h
  network_step-IsGone r (some name) (failures, d) h =
      if_both IsGone (remove_network && is_managed r.network_owner) _ _
        (after_network-IsGone r _ (failures, d) h) (volume_step-IsGone r (failures, d) h)

  container_step-IsGone :
      (r : RuntimeRecord) (expected : Result Labels) (d : Daemon)
      → r.container_id ≡ id
      → IsGone (container_step w f t remove_volume remove_network r expected d)
  container_step-IsGone r (raise e) d same = tt
  container_step-IsGone r (ok expected) d same = network_step-IsGone r r.network_name _ (
      remove_verified-IsClean f id r.container_id r.labels expected
        (delete_container r.container_id) ([], d)
        λ e.
          subst (λ i. IsWithout i (delete_container r.container_id d)) same
            (delete_container-IsWithout r.container_id d))

  after_children-IsGone :
      (r : RuntimeRecord) (o : Cleanup)
      → r.container_id ≡ id
      → IsGone (after_children w f t remove_volume remove_network r o)
  after_children-IsGone r (failure ∷ failures, d) same = tt
  after_children-IsGone r ([], d) same = container_step-IsGone r (record_container_labels r) d same

  after_stop-IsGone :
      (r : RuntimeRecord) (d : Daemon)
      → r.container_id ≡ id
      → IsGone (after_stop w f t remove_volume remove_network r d)
  unfolding after_stop
  after_stop-IsGone r d same = after_children-IsGone r _ same

  removed_target-IsGone :
      (r : Result RuntimeRecord) (d : Daemon)
      → Returns (λ (x : RuntimeRecord). x.container_id ≡ id) r
      → IsGone (removed_target w f t remove_volume remove_network r d)
  removed_target-IsGone (raise e) d same = tt
  removed_target-IsGone (ok r) d same = if_both IsGone (not (is_managed r.container_owner)) _ _ tt (
      if_both IsGone (not (r.state == codes "running")) _ _ (after_stop-IsGone r d (same.at r refl))
        (if_both IsGone (f.stop r.container_id) _ _ tt (after_stop-IsGone r _ (same.at r refl))))

  pub mutation_target-id :
      (d : Daemon)
      → Returns (λ (x : RuntimeRecord). x.container_id ≡ id) (mutation_target w f d t id)
  unfolding mutation_target
  mutation_target-id d = Returns-after (raise_if (is_empty id) _) _ λ u e1.
      Returns-after
        (raise_if (f.inspect id || not (any (λ (c : Container). c.id == id) d.containers)) _) _
        λ u1 e2. Returns-after (resolve w f d t) _ λ found e3.
          Returns-after (required w f d found) _ λ r e4.
            Returns-bind _ _ (Returns-raise_if (not (r.container_id == id)) _)
              λ u2 same. Returns-ok r ((==_iff r.container_id id).0 (not-false _ same))

  IsGone-IsWithout : (o : Removal) → o.0 ≡ ok tt → IsGone o → IsWithout id o.1
  IsGone-IsWithout (raise e, d) done h = cc
  IsGone-IsWithout (ok u, d) done h = h

-- Where a removal returns, the container is gone; where it raises, nothing is said.
pub removal-IsGone :
    (w : Readers) (f : Faults) (t : Target) (remove_volume remove_network : Bool) (id : Text)
    (d : Daemon)
    → IsGone w f t remove_volume remove_network id (remove w f t remove_volume remove_network id d)
unfolding remove
removal-IsGone w f t remove_volume remove_network id d =
    removed_target-IsGone w f t remove_volume remove_network id _ d
      (mutation_target-id w f t remove_volume remove_network id d)

-- A removal that returns has removed the runtime: no container with the identity that it was given is
-- left.
pub remove-IsGone :
    (w : Readers) (f : Faults) (t : Target) (remove_volume remove_network : Bool) (id : Text)
    (d : Daemon)
    → (remove w f t remove_volume remove_network id d).0 ≡ ok tt
    → IsWithout id (remove w f t remove_volume remove_network id d).1
remove-IsGone w f t remove_volume remove_network id d done =
    IsGone-IsWithout w f t remove_volume remove_network id _ done
      (removal-IsGone w f t remove_volume remove_network id d)
