-- ===== src/Mcp/Requests/Theirs.antt =====
-- Which replies are the runtime's, and which the bridge's own.
use localcloud_cli.Prelude.{ℕ, Bool, ◌||◌, Option, none, some, if_both}
use localcloud_cli.Text.{Text, codes}
use localcloud_cli.Value.{Value, Entries, items, get, or_null}
use localcloud_cli.Mcp.Bridge.{Bridge}
use localcloud_cli.Mcp.Replies.{
  Reply, forwarded, result, handshake, listed, is_text, holds_user_content,
}
use localcloud_cli.Mcp.Requests.Forward.{
  World, Outcome, done, silent, unreachable, refused, crashed, forward, reconnect, first_answer,
  sent_again, reply_of, completed, transformed, transformed_result, titled_response,
}

-- A list of the bridge's own, and a handshake of its own.
abbrev pub IsOwn : Reply → Type 0
IsOwn (result id (handshake version)) = Unit
IsOwn (result id (listed method status_tool)) = Unit
IsOwn reply = ⊥

-- The runtime's answers are not the bridge's own.
pub record IsTheirs (reply : Reply) : Type 0 where
  pub theirs : ¬ (IsOwn reply)

pub record AreTheirs (o : Reply × Bridge) : Type 0 where
  pub theirs : ¬ (IsOwn o.0)

with_state : (reply : Reply) (b : Bridge) → IsTheirs reply → AreTheirs (reply, b)
with_state reply b h = record { theirs = h.theirs }

module _ (w : World) (message : Entries) (id : Value) where
  transformed-IsTheirs :
      (response : Entries) (o : Outcome Value) → IsTheirs (transformed w id response o)
  transformed-IsTheirs response (done v) = record { theirs = λ o. o }
  transformed-IsTheirs response silent = record { theirs = λ o. o }
  transformed-IsTheirs response (unreachable code) = record { theirs = λ o. o }
  transformed-IsTheirs response (refused code) = record { theirs = λ o. o }
  transformed-IsTheirs response crashed = record { theirs = λ o. o }

  transformed_result-IsTheirs :
      (response : Entries) (o : Option Value)
      → IsTheirs (transformed_result w message id response o)
  transformed_result-IsTheirs response none = record { theirs = λ o. o }
  transformed_result-IsTheirs response (some v) =
      transformed-IsTheirs response (w.transform (holds_user_content message) v)

  titled_response-IsTheirs :
      (response : Entries) (o : Option Value) → IsTheirs (titled_response w response o)
  titled_response-IsTheirs response none = record { theirs = λ o. o }
  titled_response-IsTheirs response (some v) = record { theirs = λ o. o }

  completed-IsTheirs : (response : Entries) → IsTheirs (completed w message id response)
  unfolding completed
  completed-IsTheirs response =
      let method = get (codes "method") (items message) in
      let found = get (codes "result") (items response) in
      if_both IsTheirs
        (is_text (codes "tools/call") method || is_text (codes "resources/read") method) _ _
        (transformed_result-IsTheirs response found)
        (if_both IsTheirs (is_text (codes "tools/list") method) _ (forwarded response)
          (titled_response-IsTheirs response found) (record { theirs = λ o. o }))

  reply_of-IsTheirs : (o : Outcome Entries) → IsTheirs (reply_of w message id o)
  reply_of-IsTheirs (done response) = completed-IsTheirs response
  reply_of-IsTheirs silent = record { theirs = λ o. o }
  reply_of-IsTheirs (unreachable code) = record { theirs = λ o. o }
  reply_of-IsTheirs (refused code) = record { theirs = λ o. o }
  reply_of-IsTheirs crashed = record { theirs = λ o. o }

  sent_again-AreTheirs :
      (code : Text) (o : Bool × Bridge) → AreTheirs (sent_again w message id code o)
  sent_again-AreTheirs code (ready, b) =
      if_both AreTheirs ready _ _ (with_state _ b (reply_of-IsTheirs (w.second message)))
        (record { theirs = λ o. o })

  first_answer-AreTheirs :
      (generation wait : ℕ) (o : Outcome Entries) (b : Bridge)
      → AreTheirs (first_answer w generation wait message id o b)
  first_answer-AreTheirs generation wait (unreachable code) b =
      sent_again-AreTheirs code (reconnect w generation wait b)
  first_answer-AreTheirs generation wait (done es) b = with_state _ b (completed-IsTheirs es)
  first_answer-AreTheirs generation wait silent b = record { theirs = λ o. o }
  first_answer-AreTheirs generation wait (refused code) b = record { theirs = λ o. o }
  first_answer-AreTheirs generation wait crashed b = record { theirs = λ o. o }

pub forward-AreTheirs :
    (w : World) (message : Entries) (wait : ℕ) (b : Bridge) → AreTheirs (forward w wait message b)
unfolding forward
forward-AreTheirs w message wait b =
    first_answer-AreTheirs w message (or_null (get (codes "id") (items message))) b.generation wait
      (w.first message) (w.meanwhile b)
