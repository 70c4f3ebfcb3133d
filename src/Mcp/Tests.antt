-- ===== src/Mcp/Tests.antt =====
-- Requests and tools at concrete values.
use localcloud_cli.Prelude.{◌≡◌, refl, subst, true, none, some}
use localcloud_cli.Text.{codes, ◌==◌, elem, starts_with, drop_prefix, remove_prefix}
use localcloud_cli.Text.Upper.{upper, upper_char}
use localcloud_cli.Value.{
  bool, str, dict, list, cons, nil, Entries, entry, end, named, items, get, has, truthy,
}
use localcloud_cli.Value.Equal.{set_entry}
use localcloud_cli.Endpoints.Proxy.{split}
use localcloud_cli.Mcp.Bridge.{Bridge, fresh, connected, maybe_start_attempt, disconnect}
use localcloud_cli.Mcp.Titles.{
  title_word, display_title, is_titled, fill_title, chosen_title, fill_titles, titled_tool,
  titled_tools, titled_result,
}
use localcloud_cli.Mcp.Titles.Hints.{IsFilled, titled_tool-IsFilled}
use localcloud_cli.Mcp.Replies.{Reply, reply_id, recovery, status, holds_user_content}
use localcloud_cli.Mcp.Requests.Forward.{
  World, done, unreachable, has_result, ensure_connected, reconnect, completed, forward,
}
use localcloud_cli.Mcp.Requests.{
  unavailable, status_result, initialize, take_late, list_reply, list_items, call, request,
  notification, handle,
}
use localcloud_cli.Mcp.Requests.Answers.{handle-reply_id}

-- What a run of the modules computes through.
runs : Unit {0}
unfolding codes ◌==◌ elem starts_with drop_prefix remove_prefix upper upper_char get has truthy
    set_entry split maybe_start_attempt disconnect title_word display_title is_titled fill_title
    chosen_title fill_titles titled_tool titled_tools titled_result recovery status
    holds_user_content has_result ensure_connected reconnect completed forward unavailable
    status_result initialize take_late list_reply list_items call request notification handle
runs = tt

abbrev tool : Entries
tool = entry (named (codes "name")) (str (codes "localcloud_query_sql")) (
    entry (named (codes "annotations"))
      (dict (entry (named (codes "readOnlyHint")) (bool true) end)) end)

titled :
    titled_tool (dict tool)
    ≡ dict (
        entry (named (codes "name")) (str (codes "localcloud_query_sql")) (
          entry
            (named (codes "annotations"))
            (dict (
              entry
                (named (codes "readOnlyHint"))
                (bool true)
                (entry (named (codes "title")) (str (codes "Query SQL")) end)))
            (entry (named (codes "title")) (str (codes "Query SQL")) end)))
unfolding runs
titled = refl

titled_tool-IsFilled_example :
    (filled : Entries) × (titled_tool (dict tool) ≡ dict filled) × IsFilled tool filled
titled_tool-IsFilled_example = titled_tool-IsFilled tool

abbrev message : Entries
message =
    entry (named (codes "id")) (str (codes "7"))
      (entry (named (codes "method")) (str (codes "tools/list")) end)

abbrev response : Entries
response = entry (named (codes "id")) (str (codes "7")) (
    entry (named (codes "result"))
      (dict (entry (named (codes "tools")) (list (cons (dict tool) nil)) end)) end)

-- The runtime is connected, refuses the first call and answers the second after a reconnection.
abbrev world : World
world = record {
  now = 1000;
  wait = λ n b. record b { status = connected };
  wait_roots = λ b. b;
  meanwhile = λ b. b;
  first = λ m. unreachable (codes "java_mcp_unreachable");
  second = λ m. done response;
  in_time = true;
  transform = λ user v. done v;
  auto_start = true;
}

-- The runtime does not connect.
abbrev offline : World
offline = record world { wait = λ n b. b }

done-same : {A : Type 0} (a b : A) → done a ≡ done b → a ≡ b
done-same a b h = cc

echoes :
    (es : Entries)
    → world.second message ≡ done es
    → get (codes "id") (items es) ≡ some (str (codes "7"))
unfolding runs
echoes es h =
    subst (λ x. get (codes "id") (items x) ≡ some (str (codes "7"))) (done-same response es h) refl

method_named : get (codes "method") (items message) ≡ some (str (codes "tools/list"))
unfolding runs
method_named = refl

id_given : get (codes "id") (items message) ≡ some (str (codes "7"))
unfolding runs
id_given = refl

handle-reply_id_example :
    (reply : Reply) × ((handle world message (fresh none)).0 ≡ some reply)
    × (reply_id reply ≡ str (codes "7"))
handle-reply_id_example =
    handle-reply_id world message (codes "tools/list") (str (codes "7")) (fresh none) (λ es h. cc)
      echoes method_named id_given refl
