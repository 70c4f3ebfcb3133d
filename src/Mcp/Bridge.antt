-- ===== src/Mcp/Bridge.antt =====
-- The state of `McpAdapter` in mcp_stdio.py, and what its threads do to it: each function is one
-- critical section of the adapter's lock, or one assignment outside of it. Times are milliseconds
-- of the monotonic clock. A `HostError` is known by its code, whatever code the controller chose.
pub mod Threads
mod Tests
use localcloud_cli.Prelude.{
  ℕ, suc, ◌+◌, ◌-◌, Bool, true, false, not, ◌&&◌, ◌||◌, List, [], ◌∷◌, ◌++◌, Option, none, some,
  ltb, ◌=?◌, if◌then◌else◌,
}
use localcloud_cli.Text.{Text, codes, ◌==◌}
use localcloud_cli.Value.{Value, Entries}
use localcloud_cli.Value.Equal.{equal}
use localcloud_cli.Config.Select.{ProjectSource, git, default}

pub data Status : Type 0 where
  idle connecting connected failed : Status

-- What the bridge sends to the client on its own: three notifications, and the request for the
-- roots of the workspace with its number.
pub data Notice : Type 0 where
  tools_changed resources_changed prompts_changed : Notice
  roots_list : ℕ → Notice

-- The project of the configuration, and what chose it.
pub record Project : Type 0 where
  pub name : Text
  pub source : ProjectSource

-- A list that the runtime answered too late: which list, from which cursor, until when it is kept.
pub record LateList : Type 0 where
  pub method : Text
  pub cursor : Option Text
  pub deadline : ℕ
  pub response : Entries

pub record Bridge : Type 0 where
  pub status : Status
  pub error : Option Text
  pub logged_error : Option Text
  pub attempt_done : Bool
  pub last_failure : ℕ
  pub generation : ℕ
  pub degraded : Bool
  pub client_initialized : Bool
  pub client_roots : Bool
  pub outbox : List Notice
  pub late_lists : List LateList
  pub cancelled : List Value
  pub workspace : Option Project
  pub project : Option Project
  pub roots_request : ℕ
  pub roots_pending : Option ℕ
  pub roots_ready : Bool

-- `__init__` with `connect=False`
abbrev pub fresh : Option Project → Bridge
fresh project = record {
  status = idle;
  error = none;
  logged_error = none;
  attempt_done = true;
  last_failure = 0;
  generation = 0;
  degraded = false;
  client_initialized = false;
  client_roots = false;
  outbox = [];
  late_lists = [];
  cancelled = [];
  workspace = none;
  project = project;
  roots_request = 0;
  roots_pending = none;
  roots_ready = true;
}

abbrev pub is_connected : Status → Bool
is_connected connected = true
is_connected _ = false

abbrev pub is_failed : Status → Bool
is_failed failed = true
is_failed _ = false

-- `state in {"connected", "connecting"}`
abbrev pub is_under_way : Status → Bool
is_under_way connected = true
is_under_way connecting = true
is_under_way _ = false

-- In milliseconds, as all times are.
abbrev pub retry_interval : ℕ
retry_interval = 5000

-- `_maybe_start_attempt`: whether a thread is started.
unfoldable pub maybe_start_attempt : Bool → ℕ → Bridge → Bool × Bridge
maybe_start_attempt force now b =
    if is_under_way b.status
    then (false, b)
    else if not force && is_failed b.status && ltb (now - b.last_failure) retry_interval
    then (false, b)
    else (true, record b { status = connecting; attempt_done = false })

abbrev pub list_changed : List Notice
list_changed = tools_changed ∷ resources_changed ∷ prompts_changed ∷ []

-- `_tell_lists_changed`
unfoldable pub tell_lists_changed : Bridge → Bridge
tell_lists_changed b =
    if b.degraded then record b { degraded = false; outbox = b.outbox ++ list_changed } else b

-- The end of a late answer in `_list_reply`, where the reply is a result.
unfoldable pub answer_late : LateList → Bridge → Bridge
unfolding tell_lists_changed
answer_late late b =
    if b.degraded then tell_lists_changed (record b { late_lists = late ∷ b.late_lists }) else b

-- The `else` of `_attempt`.
abbrev pub joined : Bridge → Bridge
joined b = record b {
  status = connected;
  error = none;
  logged_error = none;
  generation = suc b.generation;
  late_lists = [];
}

unfoldable pub succeed : Bridge → Bridge
unfolding tell_lists_changed
succeed b = tell_lists_changed (joined b)

-- `_fail`, with whether it is printed: an error of the same kind as the last one is not.
abbrev pub is_code : Text → Option Text → Bool
is_code code none = false
is_code code (some other) = code == other

unfoldable pub fail : Text → ℕ → Bridge → Bool × Bridge
fail code now b = (
  not (is_code code b.logged_error),
  record b { status = failed; error = some code; last_failure = now; logged_error = some code },
)

-- The `finally` of `_attempt`.
abbrev pub finish : Bridge → Bridge
finish b = record b { attempt_done = true }

-- The critical section of `_reconnect`: `generation` is that of the connection which was refused.
unfoldable pub disconnect : ℕ → Bridge → Bridge
disconnect generation b =
    if b.generation =? generation && is_connected b.status then record b { status = idle } else b

abbrev pub degrade : Bridge → Bridge
degrade b = record b { degraded = true }

-- `drain_outbox`
unfoldable pub drain_outbox : Bridge → List Notice × Bridge
drain_outbox b = if b.client_initialized then (b.outbox, record b { outbox = [] }) else ([], b)

-- `_request_roots`
unfoldable pub request_roots : Bridge → Bridge
request_roots b =
    let request = suc b.roots_request in
    record b {
      roots_request = request;
      roots_pending = some request;
      roots_ready = false;
      outbox = b.outbox ++ roots_list request ∷ [];
    }

-- `_WORKSPACE_PROJECT_SOURCES`: a project that the bridge chose by itself
abbrev pub is_replaceable : ProjectSource → Bool
is_replaceable git = true
is_replaceable default = true
is_replaceable _ = false

-- `_wants_roots`
abbrev pub may_replace : Option Project → Bool
may_replace none = true
may_replace (some p) = is_replaceable p.source

unfoldable pub wants_roots : Bridge → Bool
wants_roots b = b.client_roots && may_replace b.project

-- `_with_workspace`
abbrev pub with_workspace : Option Project → Project → Project
with_workspace none project = project
with_workspace (some workspace) project =
    if is_replaceable project.source then workspace else project

-- `apply_roots` after the search of the roots, as one step: what it reads and writes before it takes
-- the lock is merged with the block under the lock, so no other thread comes between. With whether the calling thread is to move the
-- connection to the new project.
abbrev pub moved_to : Project → Project → Bridge → Bool × Bridge
moved_to old new b =
    if new.name == old.name
    then (false, b)
    else if is_connected b.status
    then (true, record b { project = some new; status = connecting; attempt_done = false })
    else (false, record b { project = some new })

abbrev pub select_workspace : Project → Option Project → Bridge → Bool × Bridge
select_workspace found none b = (false, record b { workspace = some found })
select_workspace found (some project) b =
    moved_to project (with_workspace (some found) project) (record b { workspace = some found })

unfoldable pub apply_roots : Option Project → Bridge → Bool × Bridge
apply_roots none b = (false, b)
apply_roots (some found) b = select_workspace found b.project b

-- The `finally` of `handle_response`.
abbrev pub roots_arrived : Bridge → Bridge
roots_arrived b = record b { roots_ready = true }

-- The response answers the request for roots that was sent last.
abbrev pub is_pending : ℕ → Option ℕ → Bool
is_pending id none = false
is_pending id (some pending) = id =? pending

-- `notifications/cancelled`
abbrev pub cancel : Value → Bridge → Bridge
cancel id b = record b { cancelled = id ∷ b.cancelled }

unfoldable pub contains_id : Value → List Value → Bool
unfolding equal
contains_id id [] = false
contains_id id (next ∷ more) = equal id next || contains_id id more

unfoldable pub discard_id : Value → List Value → List Value
unfolding equal
discard_id id [] = []
discard_id id (next ∷ more) =
    let rest = discard_id id more in if equal id next then rest else next ∷ rest

-- `take_cancelled`
unfoldable pub take_cancelled : Value → Bridge → Bool × Bridge
unfolding contains_id discard_id
take_cancelled id b =
    if contains_id id b.cancelled
    then (true, record b { cancelled = discard_id id b.cancelled })
    else (false, b)
