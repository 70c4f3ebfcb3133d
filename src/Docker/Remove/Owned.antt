-- ===== src/Docker/Remove/Owned.antt =====
-- `remove` takes away nothing but the program's own resources of one data volume.
use mathlib.Core.List.{Memᴰ}
use mathlib.Core.List.Memᴰ
use localcloud_cli.Prelude.{
  ◌≡◌, refl, subst, Bool, true, not, List, [], Option, keep_if, if_both, if_cases, Result, ok,
  raise, Returns,
}
use localcloud_cli.Text.{Text, codes, ◌==◌}
use localcloud_cli.Value.{str}
use localcloud_cli.State.{validate_data_volume}
use localcloud_cli.Docker.Labels.{managed}
use localcloud_cli.Docker.Store.{Container, Daemon, Faults}
use localcloud_cli.Docker.Resolve.{Target, RuntimeRecord, Readers}
use localcloud_cli.Docker.Remove.{
  Removal, after_stop, removed_target, remove, replaced_child_services,
}
use localcloud_cli.Docker.Children.{
  is_managed, is_child, owned_children, remove_children, removed_children,
}
use localcloud_cli.Docker.Remove.Selected.{not-false, IsRecord, mutation_target-IsRecord}
use localcloud_cli.Docker.Remove.Kept.{
  is_managed-same, IsKept, base-IsKept, set_state-IsKept, remove_each-IsKept,
}
use localcloud_cli.Docker.Remove.Removed.{Memᴰ-keep_if}
use localcloud_cli.Docker.Remove.Steps.{only_if-Memᴰ}
use localcloud_cli.Docker.Remove.Steps

module _ (base : Daemon) (w : Readers) (f : Faults) (t : Target)
    (remove_volume remove_network : Bool) where
  abbrev Kept : Removal → Type 0
  Kept = Steps.Kept base w f t remove_volume remove_network

  claims :
      (p : Container → Bool) (d : Daemon) (c : Container)
      → d.containers ≡ base.containers
      → Memᴰ c (keep_if p d.containers)
      → Memᴰ c base.containers × (p c ≡ true)
  claims p d c same m =
      let (there, claim) = Memᴰ-keep_if p c d.containers m in (subst (Memᴰ c) same there, claim)

  -- The children are among the containers that were there at the start.
  abbrev AreClaimed : RuntimeRecord → Option (List Text) → List Text × List Container → Type 0
  AreClaimed r services o =
      (c : Container)
      → Memᴰ c o.1
      → Memᴰ c base.containers × (is_child r t.data_volume r.container_id services c ≡ true)

  owned_children-AreClaimed :
      (r : RuntimeRecord) (services : Option (List Text)) (d : Daemon)
      → d.containers ≡ base.containers
      → AreClaimed r services (owned_children f r t.data_volume r.container_id services ([], d))
  unfolding owned_children
  owned_children-AreClaimed r services d same =
      if_both (AreClaimed r services) f.list_children _ _ (λ c m. absurd (Memᴰ.not-nil m))
        λ c m.
          claims (is_child r t.data_volume r.container_id services) d c same (only_if-Memᴰ _ c _ m)

  removed_children-IsKept :
      (r : RuntimeRecord) (services : Option (List Text)) (d : Daemon)
      (o : List Text × List Container)
      → IsRecord t.data_volume base.containers r
      → AreClaimed r services o
      → IsKept base t.data_volume d
      → IsKept base t.data_volume (removed_children f r t.data_volume o d).1
  removed_children-IsKept r services d (failures, cs) made claimed h =
      remove_each-IsKept base t.data_volume f r r.container_id services cs (failures, d) made
        claimed h

  remove_children-IsKept :
      (r : RuntimeRecord) (services : Option (List Text)) (d : Daemon)
      → IsRecord t.data_volume base.containers r
      → d.containers ≡ base.containers
      → IsKept base t.data_volume d
      → IsKept base t.data_volume (remove_children f r t.data_volume services d).1
  unfolding remove_children
  remove_children-IsKept r services d made same h =
      removed_children-IsKept r services d _ made (owned_children-AreClaimed r services d same) h

  after_stop-Kept :
      (r : RuntimeRecord) (d : Daemon)
      → IsRecord t.data_volume base.containers r
      → r.container_owner ≡ managed
      → d.containers ≡ base.containers
      → IsKept base t.data_volume d
      → Kept (after_stop w f t remove_volume remove_network r d)
  unfolding after_stop
  after_stop-Kept r d made own same h =
      Steps.after_children-Kept base w f t remove_volume remove_network r _ made own (
        remove_children-IsKept r (replaced_child_services remove_volume remove_network r) d made
          same h)

  removed_target-Kept :
      (r : Result RuntimeRecord)
      → Returns (IsRecord t.data_volume base.containers) r
      → Kept (removed_target w f t remove_volume remove_network r base)
  removed_target-Kept (raise e) made = base-IsKept base t.data_volume
  removed_target-Kept (ok r) made =
      let record_made = made.at r refl in
      let start = base-IsKept base t.data_volume in
      if_cases Kept (not (is_managed r.container_owner)) _ _ (λ e. start)
        λ owned.
          let own = is_managed-same r.container_owner (not-false _ owned) in
          if_both Kept (not (r.state == codes "running")) _ _
            (after_stop-Kept r base record_made own refl start)
            (if_both Kept (f.stop r.container_id) _ _ start (
              after_stop-Kept r _ record_made own refl
                (set_state-IsKept base t.data_volume r.container_id (codes "exited") base start)))

-- Whatever fails in it, removing the runtime of a data volume deletes nothing but the program's own
-- resources: containers that are labelled as managed for that data volume (or, as children of an
-- older release, with the instance and the hash of its runtime), networks labelled as managed
-- networks, a volume of that name labelled as a managed volume, and anonymous volumes that the daemon
-- made for such a container.
pub remove-IsKept :
    (d : Daemon) (w : Readers) (f : Faults) (t : Target) (remove_volume remove_network : Bool)
    (id : Text)
    → validate_data_volume (str t.data_volume) ≡ ok t.data_volume
    → IsKept d t.data_volume (remove w f t remove_volume remove_network id d).1
unfolding remove
remove-IsKept d w f t remove_volume remove_network id valid =
    removed_target-Kept d w f t remove_volume remove_network _
      (mutation_target-IsRecord w f d t id valid)
