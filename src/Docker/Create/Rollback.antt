-- ===== src/Docker/Create/Rollback.antt =====
-- The rollback of `create` removes what was made.
use mathlib.Core.List.{Memᴰ}
use mathlib.Core.List.Memᴰ
use localcloud_cli.Prelude.{
  List, none, inl, inr, ◌≡◌, refl, sym, subst, ap, ◌∙◌, true, false, [], ◌∷◌, ◌++◌, Option, some,
  Result, ok, raise,
}
use localcloud_cli.Text.{Text, codes, ◌==◌, elem}
use localcloud_cli.Text.Laws.{==_refl}
use localcloud_cli.Dict
use localcloud_cli.Docker.Labels.{matches}
use localcloud_cli.Docker.Store.{Container, Resource, Daemon, Faults, Cleanup}
use localcloud_cli.Docker.Resolve.{Target, RuntimeRecord, Readers}
use localcloud_cli.Docker.Create.{
  volume_labels, network_labels, new_container, new_network, new_volume, made_container,
  rollback_create, remove_made_network, remove_made_volume, finished,
}
use localcloud_cli.Docker.Calls.{Calls, Progress, Attempt, created, failed}
use localcloud_cli.Docker.Create.Added.{
  IsFresh, AreFree, with_made, IsAdded, matches-all, remove_made_container-Added,
  remove_made_network-Added, remove_made_volume-Added,
}

-- The identities of what is made are new, the labels of the container are those of a dict, and the
-- calls of the rollback do not fail. The names of the anonymous volumes are new as well, and none of
-- them is the name of the data volume.
pub record CanUndo (f : Faults) (k : Calls) (t : Target) (d : Daemon) : Type 0 where
  pub container : IsFresh (λ (c : Container). c.id) k.container_id d.containers
  pub network : IsFresh (λ (n : Resource). n.id) k.network_id d.networks
  pub volume : IsFresh (λ (v : Resource). v.id) k.volume_id d.volumes
  pub anonymous : AreFree k.anonymous d.containers d.volumes
  pub anonymous_name : elem t.data_volume k.anonymous ≡ false
  pub labels :
      (key value : Text)
      → Memᴰ (key, value) k.container_labels
      → Dict.get key k.container_labels ≡ some value
  pub removes_container : f.remove k.container_id ≡ false
  pub removes_network : f.remove k.network_id ≡ false
  pub removes_volume : f.remove k.volume_id ≡ false
  pub looks_up : k.lookup_fails ≡ false

-- The resources of two daemons are the same.
abbrev pub AreSame : Daemon → Daemon → Type 0
AreSame d e = (e.containers ≡ d.containers) × (e.networks ≡ d.networks) × (e.volumes ≡ d.volumes)

module _ (w : Readers) (f : Faults) (k : Calls) (t : Target) where
  abbrev pub IsAllOrNothing : Daemon → Result RuntimeRecord × Daemon → Type 0
  IsAllOrNothing d (ok r, e) =
      (r.container_id ≡ k.container_id)
      × (e.containers ≡ d.containers ++ new_container w f k t ∷ [])
  IsAllOrNothing d (raise x, e) = AreSame d e

  volume_labels-matches : matches (volume_labels w f k t) (volume_labels w f k t) ≡ true
  unfolding matches Dict.get ◌==◌ codes
  volume_labels-matches = rw (==_refl t.data_volume) refl

  network_labels-matches : matches (network_labels w f k t) (network_labels w f k t) ≡ true
  unfolding matches Dict.get ◌==◌ codes
  network_labels-matches = rw (==_refl t.data_volume, ==_refl t.network_name) refl

  module _ (base : Daemon) (can : CanUndo f k t base) where
    -- The daemon has made nothing, or the container with its anonymous volumes.
    abbrev pub IsRun : List Resource → Option Container → Daemon → Type 0
    IsRun vs o d =
        IsAdded (new_container w f k t) base.containers o d.containers
        × (d.volumes ≡ with_made o vs)

    -- What the rollback finds.
    abbrev pub IsUndoable : Attempt → Type 0
    IsUndoable (created r p) =
        (r.container_id ≡ k.container_id)
        × (p.daemon.containers ≡ base.containers ++ new_container w f k t ∷ [])
    IsUndoable (failed x p) =
        (vs : List Resource) × IsRun vs (made_container w f k t x p) p.daemon
        × IsAdded (new_network w f k t) base.networks p.network p.daemon.networks
        × IsAdded (new_volume w f k t) base.volumes p.volume vs

    -- Neither what was there nor the volume that was made has the name of an anonymous one.
    anonymous-AreFree :
        (o : Option Resource) (vs : List Resource)
        → IsAdded (new_volume w f k t) base.volumes o vs
        → AreFree k.anonymous base.containers vs
    anonymous-AreFree none vs e = subst (AreFree k.anonymous base.containers) (sym e) can.anonymous
    anonymous-AreFree (some y) vs (is, e) =
        subst (AreFree k.anonymous base.containers) (sym e) (record {
          volumes = λ v m. elim (Memᴰ.append_cases base.volumes m) [
            | inl before ↦ can.anonymous.volumes v before
            | inr made ↦ elim (Memᴰ.cases_cons made) [
              | inl same ↦
                  subst (λ (x : Resource). elem x.name k.anonymous ≡ false) (sym same)
                    can.anonymous_name
              | inr later ↦ absurd (Memᴰ.not-nil later)
            ]
          ];
          mounts = can.anonymous.mounts;
        })

    rollback-AreSame :
        (c : Option Container) (p : Progress) (vs : List Resource)
        → IsRun vs c p.daemon
        → IsAdded (new_network w f k t) base.networks p.network p.daemon.networks
        → IsAdded (new_volume w f k t) base.volumes p.volume vs
        → AreSame base (rollback_create w f k t c p).1
    unfolding rollback_create
    rollback-AreSame c p vs (one, made) two three =
        let undone =
          remove_made_container-Added f (new_container w f k t) base.containers vs c ([], p.daemon)
            can.container (anonymous-AreFree p.volume vs three)
            (matches-all k.container_labels k.container_labels can.labels) can.removes_container one
            made in
        let alone =
          remove_made_network-Added f (new_network w f k t) base.networks p.network
            ([], record p.daemon { containers = base.containers; volumes = vs }) can.network
            network_labels-matches can.removes_network two in
        let empty =
          remove_made_volume-Added f (new_volume w f k t) base.volumes p.volume
            (
              [],
              record p.daemon {
                containers = base.containers;
                networks = base.networks;
                volumes = vs;
              },
            )
            can.volume volume_labels-matches can.removes_volume three in
        subst (λ (o : Cleanup). AreSame base o.1)
          (sym (
            ap
              (λ o.
                remove_made_volume f (volume_labels w f k t) p.volume
                  (remove_made_network f (network_labels w f k t) p.network o))
              undone
            ∙ ap (remove_made_volume f (volume_labels w f k t) p.volume) alone
            ∙ empty))
          (refl, refl, refl)

    pub finished-IsAllOrNothing :
        (a : Attempt) → IsUndoable a → IsAllOrNothing base (finished w f k t a)
    finished-IsAllOrNothing (created r p) h = h
    finished-IsAllOrNothing (failed x p) (vs, run, two, three) =
        rollback-AreSame (made_container w f k t x p) p vs run two three
