-- ===== src/State/Lock/Tests.antt =====
-- Two threads in the lock: one waits while the other saves.
use localcloud_cli.Prelude.{ℕ, ◌≡◌, refl, none, [], ◌∷◌}
use localcloud_cli.Text.{Text, codes}
use localcloud_cli.State.Store.{missing, no_faults}
use localcloud_cli.State.Lock.{
  outside, looked, System, put, clear, work, Reach, here, next, enter, lock, look, write, unlock,
}
use localcloud_cli.State.Lock.Exclusive.{locked_once}
use localcloud_cli.State.Lock.Serial.{performed, in_turn, locked-in_turn}

abbrev digest : Text → Text
digest t = codes "0123456789abcdef"

abbrev quiet : System
quiet = record {
  phase = λ t. outside;
  process_lock = λ p. none;
  flock = none;
  home = record { active = missing; temporaries = 0 };
}

-- Threads 0 and 1 are of two processes. Thread 0 takes the lock and clears; then thread 1 reads.
run : (s : System) × Reach digest (λ t. t) quiet s × (s.phase 1 ≡ looked missing)
unfolding put work
run = (
  _,
  next
      (next
        (next
          (next
            (next
              (next (next (next here (enter 0 refl refl)) (enter 1 refl refl)) (lock 0 refl refl))
              (look 0 refl))
            (write 0 missing no_faults (clear none) refl (refl, refl)))
          (unlock 0 refl))
        (lock 1 refl refl))
      (look 1 refl),
  refl,
)

worked_once : performed digest (λ t. t) run.1 ≡ (no_faults, clear none) ∷ []
unfolding run
worked_once = refl

locked-in_turn_example :
    run.0.home ≡ in_turn digest (λ t. t) (performed digest (λ t. t) run.1) quiet.home
locked-in_turn_example = locked-in_turn digest (λ t. t) quiet run.0 (λ t. refl) run.1

locked_once_example : ◌≡◌ {A = ℕ} 1 1
unfolding run put
locked_once_example = locked_once digest (λ t. t) quiet run.0 1 1 (λ t. refl) run.1 tt tt
