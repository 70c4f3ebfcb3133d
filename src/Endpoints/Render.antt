-- ===== src/Endpoints/Render.antt =====
-- `render_identity_environment`, `render_identity_stop` and `_shell_value` of endpoints.py.
pub mod Script
pub mod Escaped
pub mod Read
pub mod Scripts
use localcloud_cli.Prelude.{
  ℕ, Bool, true, false, not, ◌&&◌, ◌||◌, List, [], ◌∷◌, ◌++◌, Option, none, some, ◌=?◌, all, any,
  keep_if, length, is_nil, pos, if◌then◌else◌, Result, ok, raise, raise_if, ◌>>=◌, ◌>>◌,
}
use localcloud_cli.Text.{Text, codes, ◌==◌, is_empty}
use localcloud_cli.Text.Lines.{splitlines, replace, join_by, join_lines}
use localcloud_cli.Text.Numbers.{show_int}
use localcloud_cli.Text.Patterns.{is_upper_letter, is_lower_letter, is_ascii_digit}
use localcloud_cli.Dict
use localcloud_cli.Dict.{Dict}
use localcloud_cli.Endpoints.Identity.{invalid_profile}

-- [A-Za-z_]
abbrev pub is_initial : ℕ → Bool
is_initial c = is_upper_letter c || is_lower_letter c || c =? b'_'

-- [A-Za-z0-9_]
abbrev pub is_word_char : ℕ → Bool
is_word_char c = is_initial c || is_ascii_digit c

-- `_ENV_NAME`
unfoldable pub env_name : Text → Bool
unfolding all
env_name [] = false
env_name (c ∷ s) = is_initial c && all is_word_char s

unfoldable pub escape_all : Text → Text
unfolding replace codes
escape_all value =
    replace b'`' (codes "\\`") (
      replace b'$' (codes "\\$") (replace b'"' (codes "\\\"") (replace b'\\' (codes "\\\\") value)))

-- `_shell_value`
unfoldable pub shell_value : Text → Text
unfolding escape_all codes
shell_value value = codes "\"" ++ escape_all value ++ codes "\""

-- The result of `lc env --identity`: the texts are the `str` of what it holds.
pub record Session : Type 0 where
  pub id : Text
  pub service_account : Text
  pub project : Text
  pub expires_at : Text

pub record Rendered : Type 0 where
  pub environment : Dict Text
  pub endpoint_variables : List Text
  pub session : Session
  pub warnings : List Text

-- `json.dumps`, and the check of the endpoints.
pub record Printer : Type 0 where
  pub json_environment : Dict Text → Text
  pub json_text : Text → Text
  pub validate_local_endpoints : Dict Text → Result (Unit {0})

abbrev pub put_address : Text → Option Text → Dict Text → Dict Text
unfolding codes Dict.put
put_address name none d = d
put_address name (some value) d = Dict.put name (codes "http://" ++ value) d

unfoldable pub addresses : Dict Text → List Text → Dict Text → Dict Text
unfolding Dict.get Dict.put codes
addresses environment [] d = d
addresses environment (name ∷ names) d =
    addresses environment names (put_address name (Dict.get name environment) d)

abbrev pub names_in : Dict Text → List Text
names_in [] = []
names_in ((name, value) ∷ d) = name ∷ names_in d

unfoldable pub summary : Session → Text
unfolding codes
summary s =
    codes "LocalCloud identity session "
    ++ s.id
    ++ codes " for "
    ++ s.service_account
    ++ codes " (project "
    ++ s.project
    ++ codes ") expires "
    ++ s.expires_at
    ++ codes "; end it with: lc env --identity --stop"

unfoldable pub with_prefix : Text → List Text → List Text
with_prefix p [] = []
with_prefix p (t ∷ ts) = (p ++ t) ∷ with_prefix p ts

unfoldable pub comment_lines : Text → Text → List Text
unfolding with_prefix splitlines
comment_lines p t = with_prefix p (splitlines t)

unfoldable pub warning_lines : List Text → List Text
unfolding comment_lines codes
warning_lines [] = []
warning_lines (w ∷ ws) = comment_lines (codes "# WARNING: ") w ++ warning_lines ws

unfoldable pub exports : Dict Text → List Text
unfolding shell_value codes
exports [] = []
exports ((name, value) ∷ d) =
    (codes "export " ++ name ++ codes "=" ++ shell_value value) ∷ exports d

module _ (w : Printer) where
  unfoldable pub compose_items : Dict Text → List Text
  unfolding codes
  compose_items [] = []
  compose_items ((name, value) ∷ d) =
      (codes "  " ++ name ++ codes ": " ++ w.json_text value) ∷ compose_items d

  unfoldable pub compose_lines : Rendered → List Text
  unfolding codes comment_lines summary warning_lines compose_items
  compose_lines r =
      codes "# docker-compose environment variables"
        ∷ comment_lines (codes "# ") (summary r.session)
      ++ codes "# 127.0.0.1 is the Docker host's loopback; only host-networked services reach it."
        ∷ warning_lines r.warnings
      ++ codes "environment:" ∷ compose_items r.environment

  unfoldable pub shell_lines : Rendered → List Text
  unfolding codes comment_lines summary warning_lines exports
  shell_lines r =
      comment_lines (codes "# ") (summary r.session)
      ++ warning_lines r.warnings
      ++ exports r.environment

  unfoldable pub rendered : Text → Rendered → Text
  unfolding codes ◌==◌ join_by compose_lines shell_lines
  rendered output_format r =
      if output_format == codes "json"
      then w.json_environment r.environment
      else if output_format == codes "docker-compose"
      then join_lines (compose_lines r) ++ codes "\n"
      else join_lines (shell_lines r) ++ codes "\n"

  unfoldable pub render_identity_environment : Text → Rendered → Result Text
  unfolding any env_name addresses rendered
  render_identity_environment output_format r = do
    raise_if (any (λ name. not (env_name name)) (names_in r.environment)) invalid_profile
    w.validate_local_endpoints (addresses r.environment r.endpoint_variables [])
    ok (rendered output_format r)

-- What ended with `lc env --identity --stop`.
pub record StopFailure : Type 0 where
  pub session : Option Text
  pub container : Option Text
  pub cause : Text

pub record Stopped : Type 0 where
  pub sessions_ended : List Text
  pub relays_removed : ℕ
  pub failures : List StopFailure
  pub unset_variables : List Text

abbrev pub none_text : Option Text → Text
unfolding codes
none_text none = codes "None"
none_text (some t) = t

-- failure.get("session") or failure.get("container")
abbrev pub subject : StopFailure → Text
unfolding codes
subject x = elim x.session [
  | none ↦ none_text x.container
  | some t ↦ if is_empty t then none_text x.container else t
]

abbrev pub or_none_text : Text → Text
unfolding codes
or_none_text t = if is_empty t then codes "none" else t

unfoldable pub stop_summary : Stopped → Text
unfolding codes show_int join_by
stop_summary r =
    codes "LocalCloud identity relays removed: "
    ++ show_int (pos r.relays_removed)
    ++ codes "; sessions ended: "
    ++ or_none_text (join_by (codes ", ") r.sessions_ended)

unfoldable pub failure_lines : List StopFailure → List Text
unfolding codes comment_lines
failure_lines [] = []
failure_lines (x ∷ xs) =
    comment_lines (codes "# WARNING: ") (subject x ++ codes ": " ++ x.cause) ++ failure_lines xs

unfoldable pub unset_lines : Text → List Text → List Text
unfolding codes ◌==◌ join_by
unset_lines output_format names =
    if not (output_format == codes "docker-compose") && not (is_nil names)
    then (codes "unset " ++ join_by (codes " ") names) ∷ []
    else []

unfoldable pub render_identity_stop : (Stopped → Text) → Text → Stopped → Text
unfolding codes ◌==◌ comment_lines stop_summary failure_lines keep_if env_name unset_lines join_by
render_identity_stop json output_format r =
    if output_format == codes "json"
    then json r
    else join_lines (
        comment_lines (codes "# ") (stop_summary r)
        ++ failure_lines r.failures
        ++ unset_lines output_format (keep_if env_name r.unset_variables))
      ++ codes "\n"
