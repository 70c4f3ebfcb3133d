-- ===== src/State/Lock/Serial.antt =====
-- The lock makes calls of any number of threads and processes equal to calls one after another.
use localcloud_cli.Prelude.{
  List, [], ◌∷◌, ℕ, ◌≡◌, refl, sym, subst, ◌∙◌, ap, none, some, Result, ok, raise,
}
use localcloud_cli.Text.{Text}
use localcloud_cli.State.{ActiveRuntime}
use localcloud_cli.State.Store.{
  File, Home, Faults, checked_runtime, save_checked, save_active_runtime, clear_active_runtime,
  clear_locked, file_lock, existing_runtimes, then_write,
}
use localcloud_cli.State.Lock.Exclusive.{Owns, IsExclusive, Reach-IsExclusive, outside-IsExclusive}
use localcloud_cli.State.Lock.{
  outside, looked, System, Call, save, clear, work, save_work, call, enter, refused, lock, look,
  write, unlock, leave, Reach, here, next, HasLocks,
}

module _ (hexdigest : Text → Text) (process : ℕ → ℕ) where
  file_lock-body :
      {A : Type 0} (f : Faults) (body : Home → Result A × Home) (home : Home)
      → HasLocks f
      → file_lock f body home ≡ body home
  unfolding file_lock
  file_lock-body f body home (prepared, taken) = rw (prepared, taken) refl

  work-save :
      (f : Faults) (home : Home) (r : Result ActiveRuntime)
      → HasLocks f
      → save_work hexdigest f home.active r home ≡ (save_checked hexdigest f r home).1
  unfolding save_checked
  work-save f home (raise e) h = refl
  work-save f home (ok runtime) h =
      ap (λ o. o.1)
        (sym (
          file_lock-body f
            (λ x. then_write hexdigest f runtime (existing_runtimes hexdigest x.active) x) home h))

  -- A body that works on the present file is the whole call.
  work-call :
      (f : Faults) (c : Call) (home : Home)
      → HasLocks f
      → work hexdigest f c home.active home ≡ call hexdigest f c home
  unfolding work save_active_runtime clear_active_runtime
  work-call f (save runtime) home h = work-save f home (checked_runtime hexdigest runtime) h
  work-call f (clear none) home h =
      ap (λ o. o.1) (sym (file_lock-body f (clear_locked hexdigest f none) home h))
  work-call f (clear (some volume)) home h =
      ap (λ o. o.1) (sym (file_lock-body f (clear_locked hexdigest f (some volume)) home h))

  -- The calls that did their work, the last first.
  abbrev pub performed : {s r : System} → Reach hexdigest process s r → List (Faults × Call)
  performed here = []
  performed (next steps (enter t at free)) = performed steps
  performed (next steps (refused t at)) = performed steps
  performed (next steps (lock t at free)) = performed steps
  performed (next steps (look t at)) = performed steps
  performed (next steps (write t seen f c at locks)) = (f, c) ∷ performed steps
  performed (next steps (unlock t at)) = performed steps
  performed (next steps (leave t at)) = performed steps

  -- Whole calls, one after another.
  abbrev pub in_turn : List (Faults × Call) → Home → Home
  in_turn [] home = home
  in_turn ((f, c) ∷ earlier) home = call hexdigest f c (in_turn earlier home)

  -- What a thread read is still the file when it works.
  write-call :
      (s : System) (t : ℕ) (seen : File) (f : Faults) (c : Call)
      → IsExclusive hexdigest process s
      → s.phase t ≡ looked seen
      → HasLocks f
      → work hexdigest f c seen s.home ≡ call hexdigest f c s.home
  write-call s t seen f c h at locks =
      let (mutex, flock, same) = subst (Owns hexdigest process s t) at (h.owns t) in
      ap (λ x. work hexdigest f c x s.home) (sym same) ∙ work-call f c s.home locks

  Reach-in_turn :
      {s r : System} (steps : Reach hexdigest process s r)
      → IsExclusive hexdigest process s
      → r.home ≡ in_turn (performed steps) s.home
  Reach-in_turn here h = refl
  Reach-in_turn (next steps (enter t at free)) h = Reach-in_turn steps h
  Reach-in_turn (next steps (refused t at)) h = Reach-in_turn steps h
  Reach-in_turn (next steps (lock t at free)) h = Reach-in_turn steps h
  Reach-in_turn (next steps (look t at)) h = Reach-in_turn steps h
  Reach-in_turn (next {r} steps (write t seen f c at locks)) h =
      write-call r t seen f c (Reach-IsExclusive hexdigest process steps h) at locks
      ∙ ap (call hexdigest f c) (Reach-in_turn steps h)
  Reach-in_turn (next steps (unlock t at)) h = Reach-in_turn steps h
  Reach-in_turn (next steps (leave t at)) h = Reach-in_turn steps h

  -- Any number of threads of any number of processes save and clear, their steps in any order, from
  -- a moment when none is in the lock: the directory is then exactly what the calls that did their
  -- work lead to as whole calls, each once and one after another, in the order in which they worked.
  -- So no call works on a file that another has changed since it was read, and no work is lost.
  pub locked-in_turn :
      (s r : System)
      → ((t : ℕ) → s.phase t ≡ outside)
      → (steps : Reach hexdigest process s r) → r.home ≡ in_turn (performed steps) s.home
  locked-in_turn s r quiet steps =
      Reach-in_turn steps (outside-IsExclusive hexdigest process s quiet)
