-- ===== src/Mcp/Requests/Forward.antt =====
-- `ensure_connected`, `_reconnect` and `_forward` of mcp_stdio.py.
use localcloud_cli.Prelude.{ℕ, Bool, true, false, ◌||◌, Option, none, some, if◌then◌else◌}
use localcloud_cli.Text.{Text, codes}
use localcloud_cli.Value.{Value, Entries, items, get, has, or_null}
use localcloud_cli.Value.Equal.{set_entry}
use localcloud_cli.Mcp.Bridge.{Bridge, is_connected, maybe_start_attempt, disconnect}
use localcloud_cli.Mcp.Titles.{titled_result}
use localcloud_cli.Mcp.Replies.{Reply, forwarded, result, refusal, is_text, holds_user_content}

-- What a call outside of the adapter gives: a value, a `HostError`, another exception; for the
-- runtime also no answer at all, or a `HostError` that says nothing reached it.
pub data Outcome (A : Type 0) : Type 0 where
  done : A → Outcome A
  silent : Outcome A
  unreachable refused : (code : Text) → Outcome A
  crashed : Outcome A

-- The environment of one request: the time, what the other threads make of the state during a wait
-- of at most so many milliseconds, while the workspace is awaited and while the runtime works, what
-- the runtime answers the first and the second time, whether it answers a list in time, and what
-- the check of the endpoints makes of a result that may hold the user's content.
pub record World : Type 0 where
  pub now : ℕ
  pub wait : ℕ → Bridge → Bridge
  pub wait_roots : Bridge → Bridge
  pub meanwhile : Bridge → Bridge
  pub first : Entries → Outcome Entries
  pub second : Entries → Outcome Entries
  pub in_time : Bool
  pub transform : Bool → Value → Outcome Value
  pub auto_start : Bool

abbrev pub call_wait : ℕ
call_wait = 90000

-- "result" in response
unfoldable pub has_result : Reply → Bool
unfolding has
has_result (forwarded es) = has (codes "result") (items es)
has_result (result id content) = true
has_result (refusal id number code) = false

module _ (w : World) where
  unfoldable pub ensure_connected : ℕ → Bool → Bridge → Bool × Bridge
  unfolding maybe_start_attempt
  ensure_connected wait retry_now b =
      let after = w.wait wait (maybe_start_attempt retry_now w.now b).1 in
      (is_connected after.status, after)

  -- `_reconnect`
  unfoldable pub reconnect : ℕ → ℕ → Bridge → Bool × Bridge
  unfolding disconnect ensure_connected
  reconnect generation wait b = ensure_connected wait false (disconnect generation b)

  -- An `except` of `_forward`: only the code of a `HostError` reaches the client.
  abbrev pub failed_reply : Value → Outcome Entries → Reply
  failed_reply id (done es) = forwarded es
  failed_reply id silent = refusal id 32000 (some (codes "java_mcp_invalid_response"))
  failed_reply id (unreachable code) = refusal id 32000 (some code)
  failed_reply id (refused code) = refusal id 32000 (some code)
  failed_reply id crashed = refusal id 32603 none

  abbrev pub transformed : Value → Entries → Outcome Value → Reply
  transformed id response (done v) = forwarded (set_entry (codes "result") v response)
  transformed id response (refused code) = refusal id 32000 (some code)
  transformed id response (unreachable code) = refusal id 32000 (some code)
  transformed id response silent = refusal id 32603 none
  transformed id response crashed = refusal id 32603 none

  abbrev pub transformed_result : Entries → Value → Entries → Option Value → Reply
  transformed_result message id response none = forwarded response
  transformed_result message id response (some v) =
      transformed id response (w.transform (holds_user_content message) v)

  abbrev pub titled_response : Entries → Option Value → Reply
  titled_response response none = forwarded response
  titled_response response (some v) =
      forwarded (set_entry (codes "result") (titled_result v) response)

  -- The runtime's response, with its endpoints moved and its tools titled.
  unfoldable pub completed : Entries → Value → Entries → Reply
  unfolding get set_entry holds_user_content titled_result
  completed message id response =
      let method = get (codes "method") (items message) in
      let found = get (codes "result") (items response) in
      if is_text (codes "tools/call") method || is_text (codes "resources/read") method
      then transformed_result message id response found
      else if is_text (codes "tools/list") method
      then titled_response response found
      else forwarded response

  abbrev pub reply_of : Entries → Value → Outcome Entries → Reply
  reply_of message id (done response) = completed message id response
  reply_of message id o = failed_reply id o

  -- A request that nothing of reached the runtime is sent again after a reconnection.
  abbrev pub sent_again : Entries → Value → Text → Bool × Bridge → Reply × Bridge
  sent_again message id code (ready, b) =
      if ready
      then (reply_of message id (w.second message), b)
      else (refusal id 32000 (some code), b)

  abbrev pub first_answer : ℕ → ℕ → Entries → Value → Outcome Entries → Bridge → Reply × Bridge
  first_answer generation wait message id (unreachable code) b =
      sent_again message id code (reconnect generation wait b)
  first_answer generation wait message id o b = (reply_of message id o, b)

  -- `_forward`, with how long it may wait for a reconnection
  unfoldable pub forward : ℕ → Entries → Bridge → Reply × Bridge
  unfolding completed reconnect get
  forward wait message b =
      let id = or_null (get (codes "id") (items message)) in
      first_answer b.generation wait message id (w.first message) (w.meanwhile b)
