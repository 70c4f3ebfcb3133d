-- ===== src/Mcp/Bridge/Threads/Attempts.antt =====
-- At most one attempt to connect is under way, and a request that waits for one is always woken.
use localcloud_cli.Prelude.{
  ℕ, suc, ◌+◌, ◌-◌, ◌≤◌, ◌≡◌, refl, sym, ap, ◌∙◌, inl, inr, Bool, true, false, not, ◌&&◌,
  Bool-cases, and-eq-true, Option, none, some, ltb, ◌=?◌, arith,
}
use localcloud_cli.Text.{◌==◌}
use localcloud_cli.Value.{Value}
use localcloud_cli.Mcp.Bridge.{
  Status, idle, connecting, connected, failed, Bridge, Project, LateList, is_under_way,
  is_connected, is_failed, retry_interval, maybe_start_attempt, joined, succeed, fail, disconnect,
  drain_outbox, request_roots, apply_roots, moved_to, select_workspace, take_cancelled, contains_id,
  tell_lists_changed, answer_late,
}
use localcloud_cli.Mcp.Bridge.Threads.{
  Run, started, ended, with_bridge, Step, Reach, here, next, at_start, start, connect, give_up,
  wake, refuse, show_without, answered, take_late, initialize, initialized, roots_asked, get_roots,
  roots_done, resolve, cancelled, take, drain,
}

-- The number of attempts that a status stands for.
abbrev pub attempts_of : Status → ℕ
attempts_of connecting = 1
attempts_of _ = 0

pub record IsCounted (r : Run) : Type 0 where
  pub one : r.attempts ≡ attempts_of r.bridge.status
  pub woken : r.bridge.attempt_done ≡ false → 1 ≤ r.attempts + r.ending

-- What a step that starts nothing keeps.
abbrev Keeps : Bridge → Bridge → Type 0
Keeps b c = (attempts_of c.status ≡ attempts_of b.status) × (c.attempt_done ≡ b.attempt_done)

Keeps-IsCounted :
    (r : Run) (c : Bridge) → Keeps r.bridge c → IsCounted r → IsCounted (with_bridge c r)
Keeps-IsCounted r c (status, done) h = record {
  one = h.one ∙ sym status;
  woken = λ e. h.woken (sym done ∙ e);
}

-- What a call that may start an attempt does: it starts one where none is under way.
abbrev Starts : Bridge → Bool × Bridge → Type 0
Starts b (false, c) = Keeps b c
Starts b (true, c) = (attempts_of b.status ≡ 0) × (c.status ≡ connecting)

Starts-IsCounted :
    (r : Run) (o : Bool × Bridge) → Starts r.bridge o → IsCounted r → IsCounted (started o r)
Starts-IsCounted r (false, c) keeps h = Keeps-IsCounted r c keeps h
Starts-IsCounted r (true, c) (none_before, begun) h = record {
  one = ap suc (h.one ∙ none_before) ∙ sym (ap attempts_of begun);
  woken = λ e. omega arith;
}

quiet_attempts : (s : Status) → is_under_way s ≡ false → attempts_of s ≡ 0
quiet_attempts idle h = refl
quiet_attempts failed h = refl
quiet_attempts connecting h = cc
quiet_attempts connected h = refl

connected_attempts : (s : Status) → is_connected s ≡ true → attempts_of s ≡ 0
connected_attempts connected h = refl
connected_attempts idle h = refl
connected_attempts failed h = refl
connected_attempts connecting h = cc

maybe_start_attempt-Starts :
    (force : Bool) (now : ℕ) (b : Bridge) → Starts b (maybe_start_attempt force now b)
unfolding maybe_start_attempt
maybe_start_attempt-Starts force now b = elim (Bool-cases (is_under_way b.status)) [
  | inl busy ↦ rw busy (refl, refl)
  | inr quiet ↦
      elim (Bool-cases
        (not force && is_failed b.status && ltb (now - b.last_failure) retry_interval)) [
          | inl early ↦ rw (quiet, early) (refl, refl)
          | inr due ↦ rw (quiet, due) (quiet_attempts b.status quiet, refl)
        ]
]

moved_to-Starts : (old new : Project) (b : Bridge) → Starts b (moved_to old new b)
moved_to-Starts old new b = elim (Bool-cases (new.name == old.name)) [
  | inl same ↦ rw (same, moved_to) (refl, refl)
  | inr other ↦ elim (Bool-cases (is_connected b.status)) [
    | inl active ↦ rw (other, active, moved_to) (connected_attempts b.status active, refl)
    | inr apart ↦ rw (other, apart, moved_to) (refl, refl)
  ]
]

select_workspace-Starts :
    (found : Project) (p : Option Project) (b : Bridge) → Starts b (select_workspace found p b)
select_workspace-Starts found none b = (refl, refl)
select_workspace-Starts found (some project) b =
    moved_to-Starts project _ (record b { workspace = some found })

apply_roots-Starts : (found : Option Project) (b : Bridge) → Starts b (apply_roots found b)
unfolding apply_roots
apply_roots-Starts none b = (refl, refl)
apply_roots-Starts (some found) b = select_workspace-Starts found b.project b

disconnect-Keeps : (generation : ℕ) (b : Bridge) → Keeps b (disconnect generation b)
unfolding disconnect
disconnect-Keeps generation b =
    elim (Bool-cases (b.generation =? generation && is_connected b.status)) [
      | inl active ↦ rw active (sym (connected_attempts b.status (and-eq-true _ _ active).1), refl)
      | inr other ↦ rw other (refl, refl)
    ]

answer_late-Keeps : (late : LateList) (b : Bridge) → Keeps b (answer_late late b)
unfolding answer_late tell_lists_changed
answer_late-Keeps late b = elim (Bool-cases b.degraded) [
  | inl told ↦ rw told (refl, refl)
  | inr untold ↦ rw untold (refl, refl)
]

tell_lists_changed-Keeps : (b : Bridge) → Keeps b (tell_lists_changed b)
unfolding tell_lists_changed
tell_lists_changed-Keeps b = elim (Bool-cases b.degraded) [
  | inl told ↦ rw told (refl, refl)
  | inr untold ↦ rw untold (refl, refl)
]

drain_outbox-Keeps : (b : Bridge) → Keeps b (drain_outbox b).1
unfolding drain_outbox
drain_outbox-Keeps b = elim (Bool-cases b.client_initialized) [
  | inl ready ↦ rw ready (refl, refl)
  | inr shut ↦ rw shut (refl, refl)
]

take_cancelled-Keeps : (id : Value) (b : Bridge) → Keeps b (take_cancelled id b).1
unfolding take_cancelled
take_cancelled-Keeps id b = elim (Bool-cases (contains_id id b.cancelled)) [
  | inl found ↦ rw found (refl, refl)
  | inr missed ↦ rw missed (refl, refl)
]

attempts_of-bound : (s : Status) → attempts_of s ≤ 1
attempts_of-bound idle = omega arith
attempts_of-bound connecting = omega arith
attempts_of-bound connected = omega arith
attempts_of-bound failed = omega arith

-- The end of an attempt, whatever its outcome.
ended-IsCounted :
    (r : Run) (c : Bridge)
    → attempts_of c.status ≡ 0
    → 1 ≤ r.attempts
    → IsCounted r
    → IsCounted (ended c r)
ended-IsCounted r c over under_way h = record {
  one = omega (arith, h.one, over, attempts_of-bound r.bridge.status);
  woken = λ e. omega arith;
}

succeed-quiet : (b : Bridge) → attempts_of (succeed b).status ≡ 0
unfolding succeed
succeed-quiet b = (tell_lists_changed-Keeps (joined b)).0

Step-IsCounted : {r s : Run} → Step r s → IsCounted r → IsCounted s
unfolding request_roots fail
Step-IsCounted {r} (start force now) h =
    Starts-IsCounted r _ (maybe_start_attempt-Starts force now r.bridge) h
Step-IsCounted {r} (connect under_way) h = ended-IsCounted r _ (succeed-quiet r.bridge) under_way h
Step-IsCounted {r} (give_up code now under_way) h = ended-IsCounted r _ refl under_way h
Step-IsCounted {r} (wake over) h = record { one = h.one; woken = λ e. cc }
Step-IsCounted {r} (refuse generation) h =
    Keeps-IsCounted r _ (disconnect-Keeps generation r.bridge) h
Step-IsCounted {r} show_without h = Keeps-IsCounted r _ (refl, refl) h
Step-IsCounted {r} (answered late) h = Keeps-IsCounted r _ (answer_late-Keeps late r.bridge) h
Step-IsCounted {r} (take_late kept) h = Keeps-IsCounted r _ (refl, refl) h
Step-IsCounted {r} (initialize roots) h = Keeps-IsCounted r _ (refl, refl) h
Step-IsCounted {r} initialized h = Keeps-IsCounted r _ (refl, refl) h
Step-IsCounted {r} (roots_asked wanted) h = Keeps-IsCounted r _ (refl, refl) h
Step-IsCounted {r} (get_roots id found pending) h =
    Starts-IsCounted r _ (apply_roots-Starts found r.bridge) h
Step-IsCounted {r} roots_done h = Keeps-IsCounted r _ (refl, refl) h
Step-IsCounted {r} (resolve project) h = Keeps-IsCounted r _ (refl, refl) h
Step-IsCounted {r} (cancelled id) h = Keeps-IsCounted r _ (refl, refl) h
Step-IsCounted {r} (take id) h = Keeps-IsCounted r _ (take_cancelled-Keeps id r.bridge) h
Step-IsCounted {r} drain h =
    let kept = Keeps-IsCounted r (drain_outbox r.bridge).1 (drain_outbox-Keeps r.bridge) h in
    record { one = kept.one; woken = kept.woken }

Reach-IsCounted : {r s : Run} → Reach r s → IsCounted r → IsCounted s
Reach-IsCounted here h = h
Reach-IsCounted (next steps step) h = Step-IsCounted step (Reach-IsCounted steps h)

-- Whatever the threads of the adapter do and in whatever order: at most one attempt to connect is
-- under way, exactly while the adapter says that it connects; and while the requests that wait for
-- an attempt are held, an attempt is under way or about to wake them.
pub attempts_once :
    (project : Option Project) (r : Run)
    → Reach (at_start project) r
    → (r.attempts ≡ attempts_of r.bridge.status)
      × (r.bridge.attempt_done ≡ false → 1 ≤ r.attempts + r.ending)
attempts_once project r steps =
    let h = Reach-IsCounted steps (record { one = refl; woken = λ e. cc }) in (h.one, h.woken)
