-- ===== src/Mcp/Requests.antt =====
-- `McpAdapter.handle` of mcp_stdio.py and the methods that it calls. One request is followed from
-- its first step to its reply; what the other threads do meanwhile is the environment's choice.
pub mod Forward
pub mod Answers
pub mod Theirs
pub mod Degraded
use localcloud_cli.Prelude.{
  ℕ, Bool, true, false, not, ◌&&◌, ◌||◌, List, [], ◌∷◌, Option, none, some, ltb, if◌then◌else◌,
}
use localcloud_cli.Text.{Text, codes, ◌==◌, elem}
use localcloud_cli.Value.{
  is_null, Value, null, str, int, bool, list, dict, Entries, end, items, get, has, or_null,
}
use localcloud_cli.Value.Equal.{set_entry}
use localcloud_cli.Mcp.Bridge.{
  Bridge, LateList, is_connected, maybe_start_attempt, degrade, request_roots, wants_roots, cancel,
  take_cancelled,
}
use localcloud_cli.Mcp.Replies.{
  Reply, forwarded, result, refusal, reply_id, Content, empty, handshake, listed, reported,
  unavailable_call, object_of, text_of, is_text, problem, recovery, status,
}
use localcloud_cli.Mcp.Requests.Forward.{World, ensure_connected, forward, has_result, call_wait}

abbrev pub handshake_wait : ℕ
handshake_wait = 4000

abbrev pub list_wait : ℕ
list_wait = 3000

-- `_RUNTIME_PROTOCOL_VERSIONS`
abbrev pub protocol_versions : List Text
protocol_versions =
    codes "2025-11-25" ∷ codes "2025-06-18" ∷ codes "2025-03-26" ∷ codes "2024-11-05" ∷ []

abbrev pub negotiated : Option Value → Value
negotiated (some (str version)) =
    if elem version protocol_versions then str version else str (codes "2025-11-25")
negotiated o = str (codes "2025-11-25")

abbrev pub list_methods : List Text
list_methods =
    codes "tools/list"
    ∷ codes "resources/list"
    ∷ codes "resources/templates/list"
    ∷ codes "prompts/list"
    ∷ []

abbrev pub long_methods : List Text
long_methods = codes "tools/call" ∷ codes "resources/read" ∷ codes "prompts/get" ∷ []

module _ (w : World) where
  -- `_unavailable`
  unfoldable pub unavailable : Text → Value → Bridge → Reply
  unfolding recovery
  unavailable method id b =
      let code = problem b in
      if method == codes "tools/call"
      then result id (unavailable_call code (recovery code w.auto_start))
      else refusal id 32000 (some code)

  -- `_status_result`
  unfoldable pub status_result : Value → Bridge → Reply × Bridge
  unfolding ensure_connected status
  status_result id b =
      let (ready, after) = ensure_connected w call_wait true b in
      (result id (reported (not ready) (status w.auto_start after)), after)

  abbrev pub handshake_reply : Value → Option Value → Bridge → Reply × Bridge
  handshake_reply id version b = (result id (handshake (negotiated version)), degrade b)

  abbrev pub or_handshake : Value → Option Value → Reply × Bridge → Reply × Bridge
  or_handshake id version (reply, b) =
      if has_result reply then (reply, b) else handshake_reply id version b

  abbrev pub greeted : Entries → Value → Option Value → Bool × Bridge → Reply × Bridge
  greeted message id version (ready, b) =
      if ready
      then or_handshake id version (forward w 0 message b)
      else handshake_reply id version b

  -- `_initialize`
  unfoldable pub initialize : Entries → Value → Entries → Bridge → Reply × Bridge
  unfolding ensure_connected forward has_result get has elem
  initialize message id params b =
      let capabilities = object_of (get (codes "capabilities") (items params)) in
      let start = record b { client_roots = has (codes "roots") (items capabilities) } in
      greeted message id (get (codes "protocolVersion") (items params))
        (ensure_connected w handshake_wait false start)

  -- The late answer to the same question, which is taken out of the store.
  abbrev pub same_cursor : Option Text → Option Text → Bool
  same_cursor none none = true
  same_cursor (some s) (some t) = s == t
  same_cursor _ _ = false

  unfoldable pub take_late : Text → Option Text → List LateList → Option LateList × List LateList
  take_late method cursor [] = (none, [])
  take_late method cursor (late ∷ more) =
      let (found, rest) = take_late method cursor more in
      if late.method == method && same_cursor late.cursor cursor
      then (some late, rest)
      else (found, late ∷ rest)

  -- The runtime's answer, where it comes in time; the client is told of a later one.
  abbrev pub waited : Bool → Reply × Bridge → Bridge → Option Reply × Bridge
  waited true (reply, b) before = (some reply, b)
  waited false answer before = (none, degrade (w.meanwhile before))

  abbrev pub kept_late : Entries → Value → Option LateList → Bridge → Option Reply × Bridge
  kept_late message id none b = waited w.in_time (forward w call_wait message b) b
  kept_late message id (some late) b =
      if ltb w.now late.deadline
      then (some (forwarded (set_entry (codes "id") id late.response)), b)
      else waited w.in_time (forward w call_wait message b) b

  -- `_list_reply`
  unfoldable pub list_reply : Entries → Value → Text → Bridge → Option Reply × Bridge
  unfolding take_late forward get set_entry
  list_reply message id method b =
      let params = object_of (get (codes "params") (items message)) in
      let cursor = text_of (get (codes "cursor") (items params)) in
      let (late, rest) = take_late method cursor b.late_lists in
      kept_late message id late (record b { late_lists = rest })

  abbrev pub own_list : Value → Text → Reply
  own_list id method = result id (listed method (method == codes "tools/list"))

  abbrev pub or_own_list : Value → Text → Option Reply × Bridge → Reply × Bridge
  or_own_list id method (none, b) = (own_list id method, b)
  or_own_list id method (some reply, b) =
      if has_result reply then (reply, b) else (own_list id method, degrade b)

  abbrev pub listed_connected : Entries → Value → Text → Bool × Bridge → Reply × Bridge
  listed_connected message id method (ready, b) =
      if ready
      then or_own_list id method (list_reply message id method b)
      else (own_list id method, degrade b)

  -- `_list`
  unfoldable pub list_items : Entries → Value → Text → Bridge → Reply × Bridge
  unfolding ensure_connected list_reply has_result
  list_items message id method b =
      listed_connected message id method (ensure_connected w list_wait false b)

  abbrev pub call_connected : Entries → Value → Text → Bool × Bridge → Reply × Bridge
  call_connected message id method (ready, b) =
      if ready then forward w call_wait message b else (unavailable method id b, b)

  -- Any other request; the long ones wait for the workspace first.
  unfoldable pub call : Entries → Value → Text → Bridge → Reply × Bridge
  unfolding ensure_connected forward unavailable elem
  call message id method b =
      let start = if elem method long_methods then w.wait_roots b else b in
      call_connected message id method (ensure_connected w call_wait false start)

  unfoldable pub request : Entries → Value → Text → Bridge → Reply × Bridge
  unfolding initialize list_items status_result call elem get
  request message id method b =
      let params = object_of (get (codes "params") (items message)) in
      if method == codes "ping"
      then (result id empty, b)
      else if method == codes "initialize"
      then initialize message id params b
      else if method == codes "server/discover" && not (is_connected b.status)
      then (refusal id 32601 (some method), b)
      else if elem method list_methods
      then list_items message id method b
      else if method == codes "tools/call"
          && is_text (codes "localcloud_runtime_status") (get (codes "name") (items params))
      then status_result id b
      else call message id method b

  abbrev pub cancelled_id : Option Value → Bridge → Bridge
  cancelled_id (some (str id)) b = cancel (str id) b
  cancelled_id (some (int id)) b = cancel (int id) b
  cancelled_id (some (bool id)) b = cancel (bool id) b
  cancelled_id o b = b

  abbrev pub ask_roots : Bridge → Bridge
  ask_roots b = if wants_roots b then request_roots b else b

  -- `_notification`: what is passed on to the runtime has no reply, and no failure.
  unfoldable pub notification : Text → Entries → Bridge → Bridge
  unfolding wants_roots request_roots get
  notification method message b =
      let params = object_of (get (codes "params") (items message)) in
      if method == codes "notifications/cancelled"
      then cancelled_id (get (codes "requestId") (items params)) b
      else if method == codes "notifications/initialized"
      then ask_roots (record b { client_initialized = true })
      else if method == codes "notifications/roots/list_changed"
      then ask_roots b
      else b

  abbrev pub replied : Reply × Bridge → Option Reply × Bridge
  replied (reply, b) = (some reply, b)

  abbrev pub with_id : Entries → Text → Option Value → Bridge → Option Reply × Bridge
  with_id message method none b = (none, notification method message b)
  with_id message method (some id) b =
      if is_null id
      then (none, notification method message b)
      else replied (request message id method b)

  abbrev pub with_method : Entries → Option Text → Bridge → Option Reply × Bridge
  with_method message none b = (none, b)
  with_method message (some method) b = with_id message method (get (codes "id") (items message)) b

  unfoldable pub handle : Entries → Bridge → Option Reply × Bridge
  unfolding request notification get
  handle message b = with_method message (text_of (get (codes "method") (items message))) b

  -- `respond` in `_run_sdk`: the reply to a request that the client cancelled is dropped.
  abbrev pub unless_cancelled : Option Reply × Bridge → Option Reply × Bridge
  unless_cancelled (none, b) = (none, b)
  unless_cancelled (some reply, b) =
      let (dropped, after) = take_cancelled (reply_id reply) b in
      (if dropped then none else some reply, after)

  unfoldable pub respond : Entries → Bridge → Option Reply × Bridge
  unfolding handle take_cancelled
  respond message b = unless_cancelled (handle message b)
