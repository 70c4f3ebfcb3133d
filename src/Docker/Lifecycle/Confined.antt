-- ===== src/Docker/Lifecycle/Confined.antt =====
-- Starts, restarts and stops touch no container of others.
use mathlib.Core.List.{Memᴰ}
use mathlib.Core.List.Memᴰ
use localcloud_cli.Prelude.{
  ◌≡◌, refl, sym, subst, ap, ◌⊎◌, inl, inr, Bool, true, false, not, Bool-cases, List, [], ◌∷◌, ◌++◌,
  none, keep_if, is_nil, if_both, Result, ok, raise, Returns,
}
use localcloud_cli.Text.{Text, codes, ◌==◌}
use localcloud_cli.Text.Laws.{==_iff}
use localcloud_cli.Value.{str}
use localcloud_cli.State.{validate_data_volume}
use localcloud_cli.Docker.Labels.{matches}
use localcloud_cli.Docker.Store.{Container, Daemon, Faults, Cleanup, set_state}
use localcloud_cli.Docker.Resolve.{Target, RuntimeRecord, Readers}
use localcloud_cli.Docker.Children.{
  is_managed, is_child, expected_child, owned_children, identities, only_if,
}
use localcloud_cli.Docker.Remove.Own.{IsOwnContainer}
use localcloud_cli.Docker.Remove.Removed.{Memᴰ-keep_if, keep_if-Memᴰ}
use localcloud_cli.Docker.Remove.Selected.{IsRecord, mutation_target-IsRecord}
use localcloud_cli.Docker.Remove.Kept.{child-IsOwn, expected_child-IsManaged}
use localcloud_cli.Docker.Remove.Gone.{mutation_target-id}
use localcloud_cli.Docker.Remove.Steps.{only_if-Memᴰ}
use localcloud_cli.Docker.Lifecycle.{
  Changed, stop_child, stop_each, stopped_children, start_target, start, restart_target, restart,
  stop_concluded, stop_children, stop_target, stop,
}

identities-filled :
    (c : Container) (failures : List Text) (cs : List Container)
    → Memᴰ c cs
    → is_nil (failures ++ identities cs) ≡ false
identities-filled c (failure ∷ failures) cs m = refl
identities-filled c [] [] m = absurd (Memᴰ.not-nil m)
identities-filled c [] (e ∷ cs) m = refl

-- A child that is returned has the labels that its claim asks for.
children-matches :
    (p : Container → Bool) (c : Container) (failures : List Text) (cs : List Container)
    → Memᴰ c (only_if (is_nil (failures ++ identities (keep_if (λ x. not (p x)) cs))) cs)
    → p c ≡ true
children-matches p c failures cs m = elim (Bool-cases (p c)) [
  | inl fits ↦ fits
  | inr wrong ↦
      let listed = keep_if-Memᴰ (λ x. not (p x)) c cs (only_if-Memᴰ _ c cs m) (ap not wrong) in
      absurd (Memᴰ.not-nil (rw (identities-filled c failures _ listed) at m))
]

module _ (base : Daemon) (data_volume id : Text) where
  -- The container that was given, or one of the program's own for the data volume.
  abbrev pub MayChange : Text → Type 0
  MayChange i =
      (i ≡ id)
      ⊎ ((c : Container) × Memᴰ c base.containers
          × (c.id ≡ i)
          × IsOwnContainer data_volume base.containers c)

  -- The resources are the same, and so is the state of every container that may not change.
  pub record IsConfined (d : Daemon) : Type 0 where
    pub containers : d.containers ≡ base.containers
    pub networks : d.networks ≡ base.networks
    pub volumes : d.volumes ≡ base.volumes
    pub state : (i : Text) → (d.state i ≡ base.state i) ⊎ MayChange i

  base-IsConfined : IsConfined base
  base-IsConfined = record {
    containers = refl;
    networks = refl;
    volumes = refl;
    state = λ i. inl refl;
  }

  set_state-IsConfined :
      (i state : Text) (d : Daemon) → MayChange i → IsConfined d → IsConfined (set_state i state d)
  set_state-IsConfined i state d may h = record {
    containers = h.containers;
    networks = h.networks;
    volumes = h.volumes;
    state = λ j. elim (Bool-cases (j == i)) [
      | inl same ↦ inr (subst MayChange (sym ((==_iff j i).0 same)) may)
      | inr other ↦ rw other (h.state j)
    ];
  }

  stop_child-IsConfined :
      (f : Faults) (c : Container) (o : Cleanup)
      → MayChange c.id
      → IsConfined o.1
      → IsConfined (stop_child f c o).1
  unfolding stop_child
  stop_child-IsConfined f c (failures, d) may h =
      if_both (λ (o : Cleanup). IsConfined o.1) (not (d.state c.id == codes "running")) _ _ h
        (if_both (λ (o : Cleanup). IsConfined o.1) (f.stop c.id) _ _ h
          (set_state-IsConfined c.id (codes "exited") d may h))

  stop_each-IsConfined :
      (f : Faults) (cs : List Container) (o : Cleanup)
      → ((c : Container) → Memᴰ c cs → MayChange c.id)
      → IsConfined o.1
      → IsConfined (stop_each f cs o).1
  unfolding stop_each
  stop_each-IsConfined f [] o may h = h
  stop_each-IsConfined f (c ∷ cs) o may h =
      stop_each-IsConfined f cs (stop_child f c o) (λ e m. may e (Memᴰ.tail m))
        (stop_child-IsConfined f c o (may c (Memᴰ.head refl)) h)

  owned_children-MayChange :
      (f : Faults) (r : RuntimeRecord) (d : Daemon)
      → IsRecord data_volume base.containers r
      → d.containers ≡ base.containers
      → (c : Container) → Memᴰ c (owned_children f r data_volume r.container_id none ([], d)).1
      → MayChange c.id
  unfolding owned_children
  owned_children-MayChange f r d made same =
      if_both (λ (o : List Text × List Container). (c : Container) → Memᴰ c o.1 → MayChange c.id)
        f.list_children _ _ (λ c m. absurd (Memᴰ.not-nil m))
        λ c m.
          let (there, claim) =
            Memᴰ-keep_if (is_child r data_volume r.container_id none) c d.containers
              (only_if-Memᴰ _ c _ m) in
          let fits =
            children-matches (λ e. matches e.labels (expected_child r data_volume e.labels)) c []
              (keep_if (is_child r data_volume r.container_id none) d.containers) m in
          inr (
            c,
            subst (Memᴰ c) same there,
            refl,
            child-IsOwn base data_volume r r.container_id none c made claim
                (expected_child-IsManaged r data_volume c.labels fits),
          )

module _ (base : Daemon) (w : Readers) (f : Faults) (t : Target) (wait_ready : Result (Unit {0}))
    (id : Text) where
  abbrev pub Confined : Changed → Type 0
  Confined o = IsConfined base t.data_volume id o.1

  stop_concluded-Confined :
      (o : Cleanup)
      → IsConfined base t.data_volume id o.1
      → Confined (stop_concluded w f t wait_ready o)
  stop_concluded-Confined ([], d) h = h
  stop_concluded-Confined (failure ∷ failures, d) h = h

  stopped_children-IsConfined :
      (o : List Text × List Container) (d : Daemon)
      → ((c : Container) → Memᴰ c o.1 → MayChange base t.data_volume id c.id)
      → IsConfined base t.data_volume id d
      → IsConfined base t.data_volume id (stopped_children f o d).1
  stopped_children-IsConfined (failures, cs) d may h =
      stop_each-IsConfined base t.data_volume id f cs (failures, d) may h

  stop_children-Confined :
      (r : RuntimeRecord) (d : Daemon)
      → IsRecord t.data_volume base.containers r
      → IsConfined base t.data_volume id d
      → Confined (stop_children w f t wait_ready r d)
  unfolding stop_children
  stop_children-Confined r d made h =
      if_both Confined (is_managed r.container_owner) _ _
        (stop_concluded-Confined _ (
          stopped_children-IsConfined _ d
            (owned_children-MayChange base t.data_volume id f r d made h.containers) h))
        h

  -- The state of the container that was given.
  given-IsConfined :
      (r : RuntimeRecord) (state : Text)
      → r.container_id ≡ id
      → IsConfined base t.data_volume id (set_state r.container_id state base)
  given-IsConfined r state same =
      set_state-IsConfined base t.data_volume id r.container_id state base (inl same)
        (base-IsConfined base t.data_volume id)

  start_target-Confined :
      (r : Result RuntimeRecord)
      → Returns (λ (x : RuntimeRecord). x.container_id ≡ id) r
      → Confined (start_target w f t wait_ready r base)
  unfolding start_target
  start_target-Confined (raise e) same = base-IsConfined base t.data_volume id
  start_target-Confined (ok r) same =
      let still = base-IsConfined base t.data_volume id in
      if_both Confined (r.state == codes "running") _ _ still (
        if_both Confined (f.start r.container_id) _ _ still
          (given-IsConfined r (codes "running") (same.at r refl)))

  restart_target-Confined :
      (r : Result RuntimeRecord)
      → Returns (λ (x : RuntimeRecord). x.container_id ≡ id) r
      → Confined (restart_target w f t wait_ready r base)
  unfolding restart_target
  restart_target-Confined (raise e) same = base-IsConfined base t.data_volume id
  restart_target-Confined (ok r) same =
      if_both Confined (f.restart r.container_id) _ _ (base-IsConfined base t.data_volume id)
        (given-IsConfined r (codes "running") (same.at r refl))

  stop_target-Confined :
      (r : Result RuntimeRecord)
      → Returns (λ (x : RuntimeRecord). x.container_id ≡ id) r
      → Returns (IsRecord t.data_volume base.containers) r
      → Confined (stop_target w f t wait_ready r base)
  unfolding stop_target
  stop_target-Confined (raise e) same made = base-IsConfined base t.data_volume id
  stop_target-Confined (ok r) same made =
      let still = base-IsConfined base t.data_volume id in
      if_both Confined (not (r.state == codes "running")) _ _
        (stop_children-Confined r base (made.at r refl) still)
        (if_both Confined (f.stop r.container_id) _ _ still (
          stop_children-Confined r _ (made.at r refl)
            (given-IsConfined r (codes "exited") (same.at r refl))))

pub data Action : Type 0 where
  starting restarting stopping : Action

abbrev pub act : Action → Readers → Faults → Target → Result (Unit {0}) → Text → Daemon → Changed
act starting w f t wait_ready = start w f t wait_ready
act restarting w f t wait_ready = restart w f t wait_ready
act stopping w f t wait_ready = stop w f t wait_ready

-- A start, a restart or a stop of the runtime of a data volume, whatever fails in it, keeps the
-- daemon's containers, networks and volumes, and changes the state of no container but the one that
-- was given and containers that are labelled as the program's own for that data volume.
pub act-IsConfined :
    (a : Action) (w : Readers) (f : Faults) (t : Target) (wait_ready : Result (Unit {0}))
    (id : Text) (d : Daemon)
    → validate_data_volume (str t.data_volume) ≡ ok t.data_volume
    → IsConfined d t.data_volume id (act a w f t wait_ready id d).1
unfolding start restart stop
act-IsConfined starting w f t wait_ready id d valid =
    start_target-Confined d w f t wait_ready id _ (mutation_target-id w f t true true id d)
act-IsConfined restarting w f t wait_ready id d valid =
    restart_target-Confined d w f t wait_ready id _ (mutation_target-id w f t true true id d)
act-IsConfined stopping w f t wait_ready id d valid =
    stop_target-Confined d w f t wait_ready id _ (mutation_target-id w f t true true id d)
      (mutation_target-IsRecord w f d t id valid)
