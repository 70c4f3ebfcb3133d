-- ===== src/Endpoints/Tests.antt =====
-- Identity sessions at concrete profiles.
use localcloud_cli.Prelude.{
  ◌≡◌, refl, false, some, none, keep_if, if◌then◌else◌, List, [], ◌∷◌, ◌++◌, ok, pos, all, any,
}
use localcloud_cli.Text.{Text, codes, ◌==◌, elem, strip, lower, lower_char, is_space}
use localcloud_cli.Text.Lines.{splitlines, replace, join_by, join_lines}
use localcloud_cli.Text.Numbers.{show_int}
use localcloud_cli.Dict
use localcloud_cli.Dict.{Dict}
use localcloud_cli.Value.{
  int, str, dict, list, cons, nil, Entries, entry, end, named, items, get, truthy,
}
use localcloud_cli.Endpoints.Proxy.{proxy_bypass, is_proxied, user_entries, both}
use localcloud_cli.Endpoints.Proxy.Bypass.Pieces.{commas}
use localcloud_cli.Endpoints.Proxy.Bypass.Firsts.{firsts}
use localcloud_cli.Endpoints.Proxy.Bypass.{filled}
use localcloud_cli.Endpoints.Render.{
  env_name, escape_all, shell_value, Rendered, Printer, addresses, summary, with_prefix,
  comment_lines, warning_lines, exports, shell_lines, rendered, render_identity_environment,
  Stopped, stop_summary, failure_lines, unset_lines, render_identity_stop,
}
use localcloud_cli.Endpoints.Render.Script.{read_script}
use localcloud_cli.Endpoints.Render.Read.{unsets}
use localcloud_cli.Endpoints.Render.Scripts.{
  sets, read-render_identity_environment, read-render_identity_stop,
}
use localcloud_cli.Endpoints.Identity.{identity_environment}
use localcloud_cli.Endpoints.Identity.Rewritten.{IsRewritten, identity_environment-IsRewritten}

-- What a run of the modules computes through.
runs : Unit {0}
unfolding codes ◌==◌ elem strip lower lower_char is_space show_int Dict.get Dict.put get truthy all
    any is_proxied user_entries proxy_bypass identity_environment
runs = tt

-- A proxy, and an exclusion of the user's.
abbrev behind_proxy : Dict Text
behind_proxy =
    (codes "https_proxy", codes "http://proxy:3128")
    ∷ (codes "no_proxy", codes "corp, 10.0.0.1")
    ∷ []

abbrev loopback : List Text
loopback = codes "127.0.0.1" ∷ codes "corp" ∷ []

entries_added : proxy_bypass behind_proxy loopback ≡ both (codes "corp,10.0.0.1,127.0.0.1")
unfolding runs
entries_added = refl

-- The user's exclusions come first, without blanks, and the known host is not added again.
bypass :
    commas (firsts (filled (codes "corp" ∷ codes " 10.0.0.1" ∷ []) ++ loopback))
    ≡ codes "corp,10.0.0.1,127.0.0.1"
unfolding runs firsts filled keep_if
bypass = refl

abbrev profile : Entries
profile = entry (named (codes "kind")) (str (codes "gce-metadata")) (
    entry (named (codes "environment"))
      (dict (
        entry (named (codes "GCE_METADATA_HOST")) (str (codes "127.0.0.1:8080"))
          (entry (named (codes "PROJECT")) (str (codes "demo")) end)))
      (entry (named (codes "endpointVariables")) (list (cons (str (codes "GCE_METADATA_HOST")) nil))
        (entry (named (codes "metadataHost")) (str (codes "127.0.0.1"))
          (entry (named (codes "metadataPort")) (int (pos 8080)) end))))

abbrev session : Dict Text × List Text
session = (
  (codes "GCE_METADATA_HOST", codes "127.0.0.1:49152") ∷ (codes "PROJECT", codes "demo") ∷ [],
  codes "GCE_METADATA_HOST" ∷ [],
)

moved : identity_environment (dict profile) 49152 [] ≡ ok session
unfolding runs
moved = refl

not_bypass : elem (codes "PROJECT") (codes "NO_PROXY" ∷ codes "no_proxy" ∷ []) ≡ false
unfolding runs
not_bypass = refl

identity_environment-IsRewritten_example :
    IsRewritten (items profile) 49152 (codes "PROJECT") session
identity_environment-IsRewritten_example =
    identity_environment-IsRewritten profile 49152 [] (codes "PROJECT") not_bypass session.0
      session.1 moved

-- A value that would run a command, and a warning of two lines.
abbrev hostile : Rendered
hostile = record {
  environment = (codes "GCE_METADATA_HOST", codes "$(id)\"`\\") ∷ (codes "A_1", codes "x\ny") ∷ [];
  endpoint_variables = codes "GCE_METADATA_HOST" ∷ [];
  session = record {
    id = codes "7";
    service_account = codes "a\nrm";
    project = codes "p";
    expires_at = codes "now";
  };
  warnings = codes "one\ntwo" ∷ [];
}

abbrev printer : Printer
printer = record {
  json_environment = λ d. [];
  json_text = λ t. t;
  validate_local_endpoints = λ d. ok tt;
}

abbrev written : Text
unfolding shell_lines join_by codes
written = join_lines (shell_lines printer hostile) ++ codes "\n"

runs_render : Unit {0}
unfolding codes ◌==◌ all any keep_if Dict.get Dict.put splitlines replace join_by show_int env_name
    escape_all shell_value addresses summary with_prefix comment_lines warning_lines exports
    shell_lines rendered render_identity_environment stop_summary failure_lines unset_lines
    render_identity_stop read_script written
runs_render = tt

not_json : (codes "shell" == codes "json") ≡ false
unfolding runs_render
not_json = refl

not_compose : (codes "shell" == codes "docker-compose") ≡ false
unfolding runs_render
not_compose = refl

is_written : render_identity_environment printer (codes "shell") hostile ≡ ok written
unfolding runs_render
is_written = refl

read-render_identity_environment_example : read_script written ≡ some (sets hostile.environment)
read-render_identity_environment_example =
    read-render_identity_environment printer (codes "shell") hostile written (not_json, not_compose)
      is_written

abbrev stopped : Stopped
stopped = record {
  sessions_ended = codes "7" ∷ [];
  relays_removed = 1;
  failures = record { session = none; container = some (codes "c"); cause = codes "gone\nrm" } ∷ [];
  unset_variables = codes "A_1" ∷ codes "no name" ∷ [];
}

read-render_identity_stop_example :
    read_script (render_identity_stop (λ r. []) (codes "shell") stopped)
    ≡ some (
        if codes "shell" == codes "docker-compose"
        then []
        else unsets (keep_if env_name stopped.unset_variables))
read-render_identity_stop_example =
    read-render_identity_stop (λ r. []) (codes "shell") stopped not_json

one_name : keep_if env_name stopped.unset_variables ≡ codes "A_1" ∷ []
unfolding runs_render
one_name = refl
