-- ===== src/Config/Select.antt =====
-- Which configuration file and which project: `_select_config_path`, `_required_config_path` and
-- `_select_project` of config.py.
pub mod Priority
pub mod Search
use localcloud_cli.Prelude.{
  Bool, true, false, not, ◌&&◌, ◌||◌, [], ◌∷◌, Option, none, some, if◌then◌else◌, Result, ok, raise,
  host_error, config_missing, ◌>>=◌,
}
use localcloud_cli.Text.{Text, codes, ◌==◌, strip, is_empty}
use localcloud_cli.Value.{is_null, Value, null, str}
use localcloud_cli.Config.Fields.{invalid, validate_project, default_project}

pub data Kind : Type 0 where
  absent file directory : Kind

-- What the file system answers: the kind of a path, and a path made absolute and resolved against a
-- directory.
pub record Files : Type 0 where
  pub kind : Text → Kind
  pub absolute : Text → Text → Text
  pub resolve : Text → Text

pub data ConfigSource : Type 0 where
  explicit environment local remembered home : ConfigSource

abbrev pub found_path : Kind → Text → Result Text
found_path absent path = raise (host_error config_missing)
found_path file path = ok path
found_path directory path = raise invalid

unfoldable pub required_config_path : Files → Text → Text → Result Text
required_config_path fs path base =
    let resolved = fs.resolve (fs.absolute base path) in found_path (fs.kind resolved) resolved

abbrev pub Selected : Type 0
Selected = Option (Text × ConfigSource)

-- `none` for no file.
abbrev pub from_source : Result Text → ConfigSource → Result Selected
from_source r source = r >>= λ path. ok (some (path, source))

abbrev pub home_config : Files → Kind → Text → Result Selected
home_config fs absent path = ok none
home_config fs file path = ok (some (fs.resolve path, home))
home_config fs directory path = raise invalid

abbrev pub remembered_config : Files → Text → Option Text → Text → Result Selected
remembered_config fs base none home_path = home_config fs (fs.kind home_path) home_path
remembered_config fs base (some path) home_path =
    if is_empty path || path == codes "<defaults>"
    then home_config fs (fs.kind home_path) home_path
    else from_source (required_config_path fs path base) remembered

abbrev pub local_config : Files → Text → Kind → Text → Option Text → Text → Result Selected
local_config fs base absent path remembered_path home_path =
    remembered_config fs base remembered_path home_path
local_config fs base file path remembered_path home_path = ok (some (fs.resolve path, local))
local_config fs base directory path remembered_path home_path = raise invalid

-- `LOCALCLOUD_CONFIG`, where it is set and not blank.
abbrev pub environment_config : Files → Text → Option Text → Result Selected → Result Selected
environment_config fs base none otherwise = otherwise
environment_config fs base (some path) otherwise =
    if is_empty (strip path)
    then otherwise
    else from_source (required_config_path fs path base) environment

-- `base` is the directory, `local_path` its localcloud.yaml.
unfoldable pub select_config_path :
    Files → Text → Text → Option Text → Option Text → Option Text → Text → Result Selected
unfolding required_config_path
select_config_path fs base local_path (some path) variable remembered_path home_path =
    from_source (required_config_path fs path base) explicit
select_config_path fs base local_path none variable remembered_path home_path =
    environment_config fs base variable
      (local_config fs base (fs.kind local_path) local_path remembered_path home_path)

pub data ProjectSource : Type 0 where
  flag config git default : ProjectSource

-- A file that was chosen for this directory or this command.
abbrev pub is_pinning : Option ConfigSource → Bool
is_pinning (some explicit) = true
is_pinning (some environment) = true
is_pinning (some local) = true
is_pinning _ = false

abbrev pub with_source : Result Text → ProjectSource → Result (Text × ProjectSource)
with_source r source = r >>= λ project. ok (project, source)

-- The configured project after the repository's, if there is one, and the default.
abbrev pub shared_project : Option Text → Value → Result (Text × ProjectSource)
shared_project (some project) configured = ok (project, git)
shared_project none null = ok (default_project, default)
shared_project none configured = with_source (validate_project configured) default

-- `null` stands for a project that is not configured; `git_project` is what `detect_git_project`
-- finds, which is asked only with `from_git`.
unfoldable pub select_project :
    Option Text → Value → Option ConfigSource → Bool → Option Text → Result (Text × ProjectSource)
select_project (some project) configured source from_git git_project =
    with_source (validate_project (str project)) flag
select_project none configured source from_git git_project =
    if not (is_null configured) && is_pinning source
    then with_source (validate_project configured) config
    else shared_project (if from_git then git_project else none) configured
