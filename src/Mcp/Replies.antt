-- ===== src/Mcp/Replies.antt =====
-- The replies of `McpAdapter` in mcp_stdio.py, without their texts, and what they are made of.
use localcloud_cli.Prelude.{
  ℕ, Bool, false, not, ◌&&◌, ◌||◌, List, [], ◌∷◌, Option, none, some, if◌then◌else◌,
}
use localcloud_cli.Text.{Text, codes, ◌==◌, elem, starts_with}
use localcloud_cli.Value.{Value, str, dict, Entries, end, items, get, or_null}
use localcloud_cli.Mcp.Bridge.{
  Status, connecting, connected, Bridge, Project, is_connected, is_failed,
}

-- `_recovery`: what the user is told to do.
pub data Advice : Type 0 where
  start_docker fix_config start_runtime wait run_doctor : Advice

unfoldable pub recovery : Text → Bool → Advice
unfolding elem
recovery code auto_start =
    if code == codes "docker_unavailable"
    then start_docker
    else if elem code (codes "invalid_config" ∷ codes "invalid_config_directory" ∷ [])
    then fix_config
    else if not auto_start && elem code (codes "runtime_not_running" ∷ codes "unknown_project" ∷ [])
    then start_runtime
    else if elem code (
        codes "runtime_starting"
        ∷ codes "mcp_connection_timeout"
        ∷ codes "runtime_readiness_timeout"
        ∷ [])
    then wait
    else run_doctor

pub data State : Type 0 where
  ready starting unavailable : State

abbrev pub state_of : Status → State
state_of connected = ready
state_of connecting = starting
state_of _ = unavailable

abbrev pub starting_code : Text
starting_code = codes "runtime_starting"

abbrev pub or_starting : Option Text → Text
or_starting none = starting_code
or_starting (some code) = code

-- The code of the error that is reported while there is no connection.
abbrev pub problem : Bridge → Text
problem b = if is_failed b.status then or_starting b.error else starting_code

-- `status`: the error and the advice are left out once the runtime is ready.
pub record Report : Type 0 where
  pub state : State
  pub project : Option Project
  pub trouble : Option (Text × Advice)

unfoldable pub status : Bool → Bridge → Report
unfolding recovery
status auto_start b = record {
  state = state_of b.status;
  project = b.project;
  trouble =
      if is_connected b.status then none else some (problem b, recovery (problem b) auto_start);
}

-- What the bridge answers of its own, under "result".
pub data Content : Type 0 where
  empty : Content
  handshake : (protocol_version : Value) → Content
  listed : (method : Text) (status_tool : Bool) → Content
  reported : (is_error : Bool) → Report → Content
  unavailable_call : (code : Text) → Advice → Content

-- A reply: the runtime's own, a result, or an error with its number, which is below zero, and the
-- code of its cause.
pub data Reply : Type 0 where
  forwarded : Entries → Reply
  result : (id : Value) → Content → Reply
  refusal : (id : Value) (number : ℕ) (code : Option Text) → Reply

-- The id of a reply.
abbrev pub reply_id : Reply → Value
reply_id (forwarded es) = or_null (get (codes "id") (items es))
reply_id (result id content) = id
reply_id (refusal id number code) = id

abbrev pub user_content_tools : List Text
user_content_tools =
    codes "localcloud_call_api"
    ∷ codes "localcloud_browse_resources"
    ∷ codes "localcloud_query_data"
    ∷ codes "localcloud_export_state"
    ∷ codes "localcloud_diff_project"
    ∷ codes "localcloud_get_logs"
    ∷ codes "localcloud_get_recent_requests"
    ∷ codes "localcloud_get_diagnostics"
    ∷ []

abbrev pub is_user_uri : Option Value → Bool
is_user_uri (some (str uri)) =
    starts_with uri (codes "localcloud://browse/")
    || starts_with uri (codes "localcloud://diagnostics/")
is_user_uri o = false

-- The entries of an object, none of anything else.
abbrev pub object_of : Option Value → Entries
object_of (some (dict es)) = es
object_of o = end

abbrev pub text_of : Option Value → Option Text
text_of (some (str t)) = some t
text_of o = none

-- `v is None`
abbrev pub tool_content : Entries → Option Value → Bool
tool_content params (some (str name)) =
    if name == codes "localcloud_read_resource"
    then is_user_uri
        (get (codes "uri") (items (object_of (get (codes "arguments") (items params)))))
    else elem name user_content_tools
tool_content params o = false

abbrev pub is_text : Text → Option Value → Bool
is_text t (some (str s)) = s == t
is_text t o = false

-- `_holds_user_content`
unfoldable pub holds_user_content : Entries → Bool
unfolding get elem starts_with
holds_user_content message =
    let params = object_of (get (codes "params") (items message)) in
    if is_text (codes "resources/read") (get (codes "method") (items message))
    then is_user_uri (get (codes "uri") (items params))
    else tool_content params (get (codes "name") (items params))
