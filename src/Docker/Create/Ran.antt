-- ===== src/Docker/Create/Ran.antt =====
-- What the run of a container leaves to the rollback of `create`.
use localcloud_cli.Prelude.{
  List, ◌≡◌, refl, sym, subst, ap, not, [], ◌∷◌, ◌++◌, Option, none, some, if_both, Result, ok,
  raise, Returns, Returns-ok, Returns-after, Returns-bind, Returns-raise_if,
}
use localcloud_cli.Text.{codes, ◌==◌}
use localcloud_cli.Text.Laws.{==_iff, ==_refl}
use localcloud_cli.Docker.Store.{Container, Resource, Daemon, Faults, named_container}
use localcloud_cli.Docker.Resolve.{Target, RuntimeRecord, Readers, resolve, required}
use localcloud_cli.Docker.Remove.Selected.{not-false}
use localcloud_cli.Docker.Create.{
  add_container, new_container, new_network, new_volume, own_record, ready, attempt_of, after_run,
  ran, run_step, unstarted_container, made_container,
}
use localcloud_cli.Docker.Calls.{Run, refused, unstarted, up, Calls, Attempt}
use localcloud_cli.Docker.Create.Added.{IsAdded, named_container-append}
use localcloud_cli.Docker.Create.Rollback
use localcloud_cli.Docker.Create.Rollback.{CanUndo, IsAllOrNothing}

module _ (w : Readers) (f : Faults) (k : Calls) (t : Target) (base : Daemon)
    (can : CanUndo f k t base) where
  abbrev IsUndoable : Attempt → Type 0
  IsUndoable = Rollback.IsUndoable w f k t base can

  abbrev IsRun : List Resource → Option Container → Daemon → Type 0
  IsRun = Rollback.IsRun w f k t base can

  added :
      (d : Daemon)
      → d.containers ≡ base.containers
      → (new_container w f k t ≡ new_container w f k t)
        × (d.containers ++ new_container w f k t ∷ []
            ≡ base.containers ++ new_container w f k t ∷ [])
  added d e = (refl, ap (λ xs. xs ++ new_container w f k t ∷ []) e)

  own_record-id :
      (d : Daemon)
      → Returns (λ (r : RuntimeRecord). r.container_id ≡ k.container_id) (own_record w f k t d)
  unfolding own_record
  own_record-id d = Returns-after (resolve w f d t) _ λ found e1.
      Returns-after (required w f d found) _ λ r e2.
        Returns-bind _ _ (Returns-raise_if (not (r.container_id == k.container_id)) _)
          λ u same. Returns-ok r ((==_iff r.container_id k.container_id).0 (not-false _ same))

  ready-id :
      (d : Daemon)
      → Returns (λ (r : RuntimeRecord). r.container_id ≡ k.container_id) (ready w f k t d)
  unfolding ready
  ready-id d = Returns-after k.started_image _ λ u e1.
      Returns-after (own_record w f k t d) _
        λ r e2. Returns-after k.wait_ready _ λ u1 e3. own_record-id d

  unstarted_container-none :
      (d : Daemon)
      → named_container t.container_name d.containers ≡ none
      → unstarted_container w f k t d ≡ none
  unfolding unstarted_container
  unstarted_container-none d h = rw (can.looks_up, h) refl

  unstarted_container-some :
      (d : Daemon)
      → named_container t.container_name d.containers ≡ none
      → unstarted_container w f k t (add_container (new_container w f k t) (codes "created") d)
        ≡ some (new_container w f k t)
  unfolding unstarted_container
  unstarted_container-some d h =
      rw
        (
          can.looks_up,
          named_container-append t.container_name d.containers (new_container w f k t) refl h,
          ==_refl k.container_id,
          ==_refl (codes "created"),
        )
        refl

  module _ (v n : Option Resource) where
    -- The daemon before the run.
    pub record IsBefore (d : Daemon) : Type 0 where
      pub containers : d.containers ≡ base.containers
      pub vacant : named_container t.container_name d.containers ≡ none
      pub networks : IsAdded (new_network w f k t) base.networks n d.networks
      pub volumes : IsAdded (new_volume w f k t) base.volumes v d.volumes

    attempt_of-IsUndoable :
        (r : Result RuntimeRecord) (d : Daemon)
        → Returns (λ (x : RuntimeRecord). x.container_id ≡ k.container_id) r
        → IsBefore d
        → IsUndoable (
            attempt_of w f k t r (
              after_run w f k t v n
                (some (new_container w f k t))
                (add_container (new_container w f k t) (codes "running") d)))
    unfolding made_container
    attempt_of-IsUndoable (raise e) d own h =
        (d.volumes, (added d h.containers, refl), h.networks, h.volumes)
    attempt_of-IsUndoable (ok r) d own h =
        (own.at r refl, ap (λ xs. xs ++ new_container w f k t ∷ []) h.containers)

    ran-IsUndoable : (r : Run) (d : Daemon) → IsBefore d → IsUndoable (ran w f k t v n r d)
    unfolding made_container
    ran-IsUndoable (refused r) d h = (
      d.volumes,
      if_both (λ o. IsRun d.volumes o d) (not r.name_conflict) _ _
          (subst (λ o. IsRun d.volumes o d) (sym (unstarted_container-none d h.vacant))
            (h.containers, refl))
          (h.containers, refl),
      h.networks,
      h.volumes,
    )
    ran-IsUndoable (unstarted port) d h = (
      d.volumes,
      subst (λ o. IsRun d.volumes o (add_container (new_container w f k t) (codes "created") d))
          (sym (unstarted_container-some d h.vacant)) (added d h.containers, refl),
      h.networks,
      h.volumes,
    )
    ran-IsUndoable up d h =
        if_both IsUndoable (f.reload k.container_id) _ _
          (d.volumes, (added d h.containers, refl), h.networks, h.volumes)
          (attempt_of-IsUndoable (ready w f k t _) d (ready-id _) h)

    pub run_step-IsUndoable : (d : Daemon) → IsBefore d → IsUndoable (run_step w f k t v n d)
    unfolding run_step
    run_step-IsUndoable d h = ran-IsUndoable k.run d h
