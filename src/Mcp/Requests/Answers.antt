-- ===== src/Mcp/Requests/Answers.antt =====
-- Every request is answered, and under its own id.
use localcloud_cli.Prelude.{
  ℕ, ◌≡◌, refl, sym, ap, ◌∙◌, subst, Bool, true, false, not, ◌&&◌, ◌||◌, Option, none, some, ltb,
  if_both,
}
use localcloud_cli.Text.{Text, codes, ◌==◌, elem}
use localcloud_cli.Value.{is_null, Value, str, Entries, items, get, or_null}
use localcloud_cli.Value.Equal.{set_entry}
use localcloud_cli.Mcp.Bridge.{Bridge, is_connected, LateList}
use localcloud_cli.Mcp.Titles.{titled_result}
use localcloud_cli.Value.Assign.{get-set_other, get-set_same}
use localcloud_cli.Mcp.Replies.{
  Reply, forwarded, reply_id, is_text, holds_user_content, object_of, text_of,
}
use localcloud_cli.Mcp.Requests.Forward.{
  World, Outcome, done, silent, unreachable, refused, crashed, forward, reconnect, ensure_connected,
  first_answer, sent_again, reply_of, completed, transformed, transformed_result, titled_response,
  has_result, call_wait,
}
use localcloud_cli.Mcp.Requests.{
  unavailable, status_result, initialize, or_handshake, greeted, listed_connected, list_reply,
  list_items, kept_late, waited, or_own_list, call, call_connected, request, handle, with_method,
  with_id, list_wait, list_methods,
}

abbrev id_key : Text
id_key = codes "id"

result_apart : (codes "result" == id_key) ≡ false
unfolding codes ◌==◌
result_apart = refl

module _ (w : World) (message : Entries) (id : Value) where
  -- The runtime's answer to the message has the message's id.
  abbrev pub Echoes : Outcome Entries → Type 0
  Echoes answer = (es : Entries) → answer ≡ done es → get id_key (items es) ≡ some id

  pub record Answers (reply : Reply) : Type 0 where
    pub same : reply_id reply ≡ id

  -- The reply of a call that passes the state on.
  pub record Replies (o : Reply × Bridge) : Type 0 where
    pub reply : reply_id o.0 ≡ id

  with_state : (reply : Reply) (b : Bridge) → Answers reply → Replies (reply, b)
  with_state reply b h = record { reply = h.same }

  set-Answers :
      (v : Value) (response : Entries)
      → get id_key (items response) ≡ some id
      → Answers (forwarded (set_entry (codes "result") v response))
  set-Answers v response h = record {
    same = ap or_null (get-set_other (codes "result") id_key v response result_apart ∙ h);
  }

  transformed-Answers :
      (response : Entries) (o : Outcome Value)
      → get id_key (items response) ≡ some id
      → Answers (transformed w id response o)
  transformed-Answers response (done v) h = set-Answers v response h
  transformed-Answers response silent h = record { same = refl }
  transformed-Answers response (unreachable code) h = record { same = refl }
  transformed-Answers response (refused code) h = record { same = refl }
  transformed-Answers response crashed h = record { same = refl }

  transformed_result-Answers :
      (response : Entries) (o : Option Value)
      → get id_key (items response) ≡ some id
      → Answers (transformed_result w message id response o)
  transformed_result-Answers response none h = record { same = ap or_null h }
  transformed_result-Answers response (some v) h =
      transformed-Answers response (w.transform (holds_user_content message) v) h

  titled_response-Answers :
      (response : Entries) (o : Option Value)
      → get id_key (items response) ≡ some id
      → Answers (titled_response w response o)
  titled_response-Answers response none h = record { same = ap or_null h }
  titled_response-Answers response (some v) h = set-Answers (titled_result v) response h

  completed-Answers :
      (response : Entries)
      → get id_key (items response) ≡ some id
      → Answers (completed w message id response)
  unfolding completed
  completed-Answers response h =
      let method = get (codes "method") (items message) in
      let found = get (codes "result") (items response) in
      if_both Answers
        (is_text (codes "tools/call") method || is_text (codes "resources/read") method) _ _
        (transformed_result-Answers response found h)
        (if_both Answers (is_text (codes "tools/list") method) _ (forwarded response)
          (titled_response-Answers response found h) (record { same = ap or_null h }))

  reply_of-Answers : (o : Outcome Entries) → Echoes o → Answers (reply_of w message id o)
  reply_of-Answers (done response) h = completed-Answers response (h response refl)
  reply_of-Answers silent h = record { same = refl }
  reply_of-Answers (unreachable code) h = record { same = refl }
  reply_of-Answers (refused code) h = record { same = refl }
  reply_of-Answers crashed h = record { same = refl }

  module _ (first : Echoes (w.first message)) (second : Echoes (w.second message)) where
    sent_again-Replies :
        (code : Text) (o : Bool × Bridge) → Replies (sent_again w message id code o)
    sent_again-Replies code (ready, b) =
        if_both Replies ready _ _ (with_state _ b (reply_of-Answers (w.second message) second))
          (record { reply = refl })

    first_answer-Replies :
        (generation wait : ℕ) (o : Outcome Entries) (b : Bridge)
        → Echoes o
        → Replies (first_answer w generation wait message id o b)
    first_answer-Replies generation wait (unreachable code) b h =
        sent_again-Replies code (reconnect w generation wait b)
    first_answer-Replies generation wait (done es) b h =
        with_state _ b (reply_of-Answers (done es) h)
    first_answer-Replies generation wait silent b h = record { reply = refl }
    first_answer-Replies generation wait (refused code) b h = record { reply = refl }
    first_answer-Replies generation wait crashed b h = record { reply = refl }

    module _ (given : get id_key (items message) ≡ some id) where
      forward-Replies : (wait : ℕ) (b : Bridge) → Replies (forward w wait message b)
      unfolding forward
      forward-Replies wait b =
          subst
            (λ i.
              Replies
                (first_answer w b.generation wait message i (w.first message) (w.meanwhile b)))
            (sym (ap or_null given))
            (first_answer-Replies b.generation wait (w.first message) (w.meanwhile b) first)

      or_handshake-Replies :
          (version : Option Value) (o : Reply × Bridge)
          → Replies o
          → Replies (or_handshake w id version o)
      or_handshake-Replies version (reply, b) h =
          if_both Replies (has_result reply) _ _ h (record { reply = refl })

      greeted-Replies :
          (version : Option Value) (o : Bool × Bridge) → Replies (greeted w message id version o)
      greeted-Replies version (ready, b) =
          if_both Replies ready _ _ (or_handshake-Replies version _ (forward-Replies 0 b))
            (record { reply = refl })

      initialize-Replies :
          (params : Entries) (b : Bridge) → Replies (initialize w message id params b)
      unfolding initialize
      initialize-Replies params b = greeted-Replies (get (codes "protocolVersion") (items params)) _

      -- A reply, if there is one.
      abbrev Optional : Option Reply × Bridge → Type 0
      Optional (none, b) = Unit
      Optional (some reply, b) = Answers reply

      waited-Optional :
          (in_time : Bool) (o : Reply × Bridge) (b : Bridge)
          → Replies o
          → Optional (waited w in_time o b)
      waited-Optional true (reply, c) b h = record { same = h.reply }
      waited-Optional false o b h = tt

      kept_late-Optional :
          (o : Option LateList) (b : Bridge) → Optional (kept_late w message id o b)
      kept_late-Optional none b = waited-Optional w.in_time _ b (forward-Replies call_wait b)
      kept_late-Optional (some late) b =
          if_both Optional (ltb w.now late.deadline) _ _
            (record { same = ap or_null (get-set_same id_key id late.response) })
            (waited-Optional w.in_time _ b (forward-Replies call_wait b))

      or_own_list-Replies :
          (method : Text) (o : Option Reply × Bridge)
          → Optional o
          → Replies (or_own_list w id method o)
      or_own_list-Replies method (none, b) h = record { reply = refl }
      or_own_list-Replies method (some reply, b) h =
          if_both Replies (has_result reply) _ _ (with_state reply b h) (record { reply = refl })

      list_reply-Optional :
          (method : Text) (b : Bridge) → Optional (list_reply w message id method b)
      unfolding list_reply
      list_reply-Optional method b = kept_late-Optional _ _

      listed_connected-Replies :
          (method : Text) (o : Bool × Bridge) → Replies (listed_connected w message id method o)
      listed_connected-Replies method (ready, b) =
          if_both Replies ready _ _ (or_own_list-Replies method _ (list_reply-Optional method b))
            (record { reply = refl })

      list_items-Replies : (method : Text) (b : Bridge) → Replies (list_items w message id method b)
      unfolding list_items
      list_items-Replies method b =
          listed_connected-Replies method (ensure_connected w list_wait false b)

      call_connected-Replies :
          (method : Text) (o : Bool × Bridge) → Replies (call_connected w message id method o)
      unfolding unavailable
      call_connected-Replies method (ready, b) =
          if_both Replies ready _ _ (forward-Replies call_wait b) (
            with_state _ b (
              if_both Answers (method == codes "tools/call") _ _ (record { same = refl })
                (record { same = refl })))

      call-Replies : (method : Text) (b : Bridge) → Replies (call w message id method b)
      unfolding call
      call-Replies method b = call_connected-Replies method _

      request-Replies : (method : Text) (b : Bridge) → Replies (request w message id method b)
      unfolding request status_result
      request-Replies method b =
          let params = object_of (get (codes "params") (items message)) in
          if_both Replies (method == codes "ping") _ _ (record { reply = refl })
            (if_both Replies (method == codes "initialize") _ _ (initialize-Replies params b) (
              if_both Replies (method == codes "server/discover" && not (is_connected b.status)) _ _
                (record { reply = refl })
                (if_both Replies (elem method list_methods) _ _ (list_items-Replies method b) (
                  if_both Replies
                    (method == codes "tools/call"
                      && is_text (codes "localcloud_runtime_status")
                          (get (codes "name") (items params)))
                    _ _ (record { reply = refl }) (call-Replies method b)))))

id-Answers :
    (w : World) (message : Entries) (method : Text) (id : Value) (b : Bridge)
    → Echoes w message id (w.first message)
    → Echoes w message id (w.second message)
    → get id_key (items message) ≡ some id
    → is_null id ≡ false
    → (reply : Reply) × ((with_id w message method (some id) b).0 ≡ some reply)
      × (reply_id reply ≡ id)
id-Answers w message method id b first second given h =
    rw (h, with_id) (_, refl, (request-Replies w message id first second given method b).reply)

-- Every request (a message with a method and an id) gets a reply with its own id, whether or not
-- there is a connection, whatever the runtime answers, refuses or lets fail, if the runtime's own
-- replies have the id of the request.
pub handle-reply_id :
    (w : World) (message : Entries) (method : Text) (id : Value) (b : Bridge)
    → ((es : Entries) → w.first message ≡ done es → get (codes "id") (items es) ≡ some id)
    → ((es : Entries) → w.second message ≡ done es → get (codes "id") (items es) ≡ some id)
    → get (codes "method") (items message) ≡ some (str method)
    → get (codes "id") (items message) ≡ some id
    → is_null id ≡ false
    → (reply : Reply) × ((handle w message b).0 ≡ some reply) × (reply_id reply ≡ id)
unfolding handle
handle-reply_id w message method id b first second named given h =
    subst
      (λ o. (reply : Reply) × ((with_method w message o b).0 ≡ some reply) × (reply_id reply ≡ id))
      (sym (ap text_of named))
      (subst
        (λ o.
          (reply : Reply) × ((with_id w message method o b).0 ≡ some reply) × (reply_id reply ≡ id))
        (sym given) (id-Answers w message method id b first second given h))
