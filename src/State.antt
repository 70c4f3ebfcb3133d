-- ===== src/State.antt =====
-- state.py: the record of the active runtimes, its field checks and the default names.
pub mod Naming
pub mod Codec
mod Tests
pub mod Store
pub mod Lock
use localcloud_cli.Prelude.{
  ◌≡◌, refl, Bool, true, false, ◌&&◌, ◌||◌, not, [], ◌∷◌, ◌++◌, Option, none, some, ℤ, pos, take,
  if◌then◌else◌, Result, ok, raise, host_error, invalid_data_volume, invalid_active_runtime, ◌>>=◌,
  List,
}
use localcloud_cli.Text.{Text, codes, ◌==◌, strip, starts_with, remove_prefix, is_empty}
use localcloud_cli.Text.Patterns.{is_alnum, is_name_char, full_match}
use localcloud_cli.Value.{Value, null, str}

abbrev pub active_runtime_schema_version : ℤ
active_runtime_schema_version = pos 3

abbrev pub default_data_volume : Text
default_data_volume = codes "localcloud-data"

-- ^[A-Za-z0-9][A-Za-z0-9_.-]{0,254}$
unfoldable pub data_volume_pattern : Text → Bool
unfolding is_alnum is_name_char full_match
data_volume_pattern = full_match is_alnum is_name_char 254

-- ^[a-zA-Z0-9][a-zA-Z0-9_.-]{0,127}$
unfoldable pub docker_name_pattern : Text → Bool
unfolding is_alnum is_name_char full_match
docker_name_pattern = full_match is_alnum is_name_char 127

-- `None` gives the default; what is no text is refused.
unfoldable pub validate_data_volume : Value → Result Text
validate_data_volume null = ok default_data_volume
validate_data_volume (str t) =
    if data_volume_pattern (strip t) then ok (strip t) else raise (host_error invalid_data_volume)
validate_data_volume _ = raise (host_error invalid_data_volume)

pub record Names : Type 0 where
  pub container : Text
  pub network : Text

-- `hexdigest` is hashlib.sha256(s.encode("utf-8")).hexdigest().
module _ (hexdigest : Text → Text) where
  unfoldable pub hashed_resource_name : Text → Text
  hashed_resource_name data_volume = codes "localcloud-volume-" ++ take 12 (hexdigest data_volume)

  unfoldable pub base_name : Text → Text
  unfolding hashed_resource_name
  base_name selected =
      let prefix = default_data_volume ++ codes "-" in
      let candidate = codes "localcloud-" ++ remove_prefix selected prefix in
      if selected == default_data_volume
      then codes "localcloud"
      else if starts_with selected prefix
      then (if docker_name_pattern candidate then candidate else hashed_resource_name selected)
      else hashed_resource_name selected

  unfoldable pub default_resource_names : Text → Result Names
  unfolding base_name
  default_resource_names data_volume = do
    selected ← validate_data_volume (str data_volume)
    let base = base_name selected
    ok (record { container = base; network = base })

unfoldable pub non_blank_string : Value → Result Text
non_blank_string (str t) =
    if is_empty (strip t) then raise (host_error invalid_active_runtime) else ok (strip t)
non_blank_string _ = raise (host_error invalid_active_runtime)

unfoldable pub docker_name : Value → Result Text
unfolding non_blank_string
docker_name value = do
  selected ← non_blank_string value
  if docker_name_pattern selected then ok selected else raise (host_error invalid_active_runtime)

pub record ActiveRuntime : Type 0 where
  pub schema_version : ℤ
  pub data_volume : Text
  pub image : Text
  pub container_id : Text
  pub container_name : Option Text
  pub network_name : Option Text
