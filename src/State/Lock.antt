-- ===== src/State/Lock.antt =====
-- `_file_lock` of state.py, round the bodies of `save_active_runtime` and `clear_active_runtime`,
-- with any number of processes and threads. `process` gives the process of a thread. What the
-- system promises of its locks are the guards of the steps: a lock is taken only where it is free.
pub mod Exclusive
pub mod Serial
mod Tests
use localcloud_cli.Prelude.{
  ℕ, ◌≡◌, Bool, false, Option, none, some, ◌=?◌, if◌then◌else◌, Result, ok, raise, ◌>>=◌,
}
use localcloud_cli.Text.{Text}
use localcloud_cli.State.{ActiveRuntime}
use localcloud_cli.State.Codec.{decode_active_state}
use localcloud_cli.State.Store.{
  File, Home, Faults, read_json, existing_runtimes, then_write, clear_read, unlink_active,
  checked_runtime, save_active_runtime, clear_active_runtime,
}

-- Where a thread is: outside, with the lock of its process, with the lock of the file as well, with
-- what it read of the file then, after its work, and after the release of the file's lock.
pub data Phase : Type 0 where
  outside entered locked : Phase
  looked : File → Phase
  worked leaving : Phase

pub record System : Type 0 where
  pub phase : ℕ → Phase
  pub process_lock : ℕ → Option ℕ
  pub flock : Option ℕ
  pub home : Home

module _ {A : Type 0} where
  unfoldable pub put : ℕ → A → (ℕ → A) → ℕ → A
  put key value function i = if i =? key then value else function i

-- In the faults of a call that works on the file, no lock failed.
abbrev pub HasLocks : Faults → Type 0
HasLocks f = (f.lock_file ≡ false) × (f.flock ≡ false)

-- A call that changes the file.
pub data Call : Type 0 where
  save : ActiveRuntime → Call
  clear : Option Text → Call

module _ (hexdigest : Text → Text) where
  -- The body of a call, from what it read of the file.
  abbrev pub save_work : Faults → File → Result ActiveRuntime → Home → Home
  save_work f seen (raise e) home = home
  save_work f seen (ok runtime) home =
      (then_write hexdigest f runtime (existing_runtimes hexdigest seen) home).1

  unfoldable pub work : Faults → Call → File → Home → Home
  unfolding checked_runtime read_json unlink_active
  work f (save runtime) seen home = save_work f seen (checked_runtime hexdigest runtime) home
  work f (clear none) seen home = (unlink_active f home).1
  work f (clear (some volume)) seen home =
      (clear_read hexdigest f volume (read_json seen >>= decode_active_state hexdigest) home).1

  -- The whole call, as one step.
  abbrev pub call : Faults → Call → Home → Home
  call f (save runtime) home = (save_active_runtime hexdigest f runtime home).1
  call f (clear volume) home = (clear_active_runtime hexdigest f volume home).1

  module _ (process : ℕ → ℕ) where
    abbrev pub moved : ℕ → Phase → System → System
    moved t phase s = record s { phase = put t phase s.phase }

    pub data Step (s : System) : System → Type 0 where
      enter :
          (t : ℕ)
          → s.phase t ≡ outside
          → s.process_lock (process t) ≡ none
          → Step s (record (moved t entered s) {
            process_lock = put (process t) (some t) s.process_lock;
          })
      -- The lock file cannot be prepared, or `flock` fails.
      refused : (t : ℕ) → s.phase t ≡ entered → Step s (moved t leaving s)
      lock :
          (t : ℕ)
          → s.phase t ≡ entered
          → s.flock ≡ none
          → Step s (record (moved t locked s) { flock = some t })
      look : (t : ℕ) → s.phase t ≡ locked → Step s (moved t (looked s.home.active) s)
      write :
          (t : ℕ) (seen : File) (f : Faults) (c : Call)
          → s.phase t ≡ looked seen
          → HasLocks f
          → Step s (record (moved t worked s) { home = work f c seen s.home })
      unlock : (t : ℕ) → s.phase t ≡ worked → Step s (record (moved t leaving s) { flock = none })
      leave :
          (t : ℕ)
          → s.phase t ≡ leaving
          → Step s
              (record (moved t outside s) { process_lock = put (process t) none s.process_lock })

    pub data Reach (s : System) : System → Type 0 where
      here : Reach s s
      next : {r t : System} → Reach s r → Step r t → Reach s t
