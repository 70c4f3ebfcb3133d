-- ===== src/Mcp/Bridge/Threads.antt =====
-- The threads of the adapter in mcp_stdio.py: the requests, the attempts to connect, and the task
-- that delivers the outbox. A step is one critical section or one assignment of one of them, and
-- steps come in any order; `get_roots` is the choice of a workspace with its critical section, since
-- no other thread sets the workspace.
pub mod Attempts
pub mod Outbox
pub mod Delivery
use localcloud_cli.Prelude.{
  ℕ, suc, ◌+◌, ◌-◌, ◌≤◌, ◌≡◌, Bool, true, false, List, [], ◌++◌, Option, none, some, if◌then◌else◌,
}
use localcloud_cli.Text.{Text}
use localcloud_cli.Value.{Value}
use localcloud_cli.Mcp.Bridge.{
  Bridge, Notice, Project, LateList, maybe_start_attempt, succeed, fail, finish, disconnect,
  degrade, drain_outbox, request_roots, wants_roots, apply_roots, is_pending, roots_arrived, cancel,
  take_cancelled, answer_late, fresh,
}

-- How many attempts are in `_connect_once` or `_use_project`, and how many are after it and have not
-- yet set `_attempt_done`; and what the client was sent.
pub record Run : Type 0 where
  pub bridge : Bridge
  pub attempts : ℕ
  pub ending : ℕ
  pub sent : List Notice

abbrev pub counted : Bool → ℕ → ℕ
counted true n = suc n
counted false n = n

-- A thread that may have started an attempt: the new state, and one attempt more.
abbrev pub started : Bool × Bridge → Run → Run
started (starts, b) r = record r { bridge = b; attempts = counted starts r.attempts }

abbrev pub ended : Bridge → Run → Run
ended b r = record r { bridge = b; attempts = r.attempts - 1; ending = suc r.ending }

abbrev pub delivered : List Notice × Bridge → Run → Run
delivered (notices, b) r = record r { bridge = b; sent = r.sent ++ notices }

-- An assignment that touches neither the connection nor the outbox.
abbrev pub with_bridge : Bridge → Run → Run
with_bridge b r = record r { bridge = b }

pub data Step (r : Run) : Run → Type 0 where
  start : (force : Bool) (now : ℕ) → Step r (started (maybe_start_attempt force now r.bridge) r)
  connect : 1 ≤ r.attempts → Step r (ended (succeed r.bridge) r)
  give_up : (code : Text) (now : ℕ) → 1 ≤ r.attempts → Step r (ended (fail code now r.bridge).1 r)
  wake : 1 ≤ r.ending → Step r (record r { bridge = finish r.bridge; ending = r.ending - 1 })
  refuse : (generation : ℕ) → Step r (with_bridge (disconnect generation r.bridge) r)
  show_without : Step r (with_bridge (degrade r.bridge) r)
  answered : (late : LateList) → Step r (with_bridge (answer_late late r.bridge) r)
  take_late :
      (kept : List LateList) → Step r (with_bridge (record r.bridge { late_lists = kept }) r)
  initialize : (roots : Bool) → Step r (with_bridge (record r.bridge { client_roots = roots }) r)
  initialized : Step r (with_bridge (record r.bridge { client_initialized = true }) r)
  roots_asked : wants_roots r.bridge ≡ true → Step r (with_bridge (request_roots r.bridge) r)
  get_roots :
      (id : ℕ) (found : Option Project)
      → is_pending id r.bridge.roots_pending ≡ true
      → Step r (started (apply_roots found r.bridge) r)
  roots_done : Step r (with_bridge (roots_arrived r.bridge) r)
  resolve :
      (project : Project) → Step r (with_bridge (record r.bridge { project = some project }) r)
  cancelled : (id : Value) → Step r (with_bridge (cancel id r.bridge) r)
  take : (id : Value) → Step r (with_bridge (take_cancelled id r.bridge).1 r)
  drain : Step r (delivered (drain_outbox r.bridge) r)

pub data Reach (r : Run) : Run → Type 0 where
  here : Reach r r
  next : {s t : Run} → Reach r s → Step s t → Reach r t

-- The adapter as `_run_sdk` makes it.
abbrev pub at_start : Option Project → Run
at_start project = record { bridge = fresh project; attempts = 0; ending = 0; sent = [] }
