-- ===== src/Config/Fields.antt =====
-- The checks of single fields in config.py. Every refusal is a `ConfigError` "invalid_config".
pub mod Bounds
pub mod Digits
mod Tests
use localcloud_cli.Prelude.{
  ℕ, ◌≡◌, Bool, true, false, not, ◌&&◌, ◌||◌, List, [], ◌∷◌, ◌++◌, Option, none, some, ℤ, pos,
  negsuc, all, leb, length, ◌=?◌, if◌then◌else◌, Exception, Result, ok, raise, host_error,
  invalid_config, raise_if, ◌>>=◌, ◌>>◌,
}
use localcloud_cli.Text.{
  Text, codes, ◌==◌, strip, lower, is_empty, is_digits, is_decimal, elem, starts_with, drop_prefix,
}
use localcloud_cli.Text.Patterns.{
  is_alnum, full_match, is_lower_letter, is_upper_letter, is_ascii_digit,
}
use localcloud_cli.Text.Numbers.{parse_int, show_int}
use localcloud_cli.Dict
use localcloud_cli.Dict.{Dict}
use localcloud_cli.Value.{
  Value, null, bool, int, float, str, other, list, dict, Key, named, unnamed, Items, items,
  elements,
}
use localcloud_cli.State.{docker_name_pattern}

abbrev pub invalid : Exception
invalid = host_error invalid_config

abbrev pub default_project : Text
default_project = codes "local-gcp-project"

abbrev pub default_user : Text
default_user = codes "local-developer"

-- [a-z0-9]
abbrev pub is_slug_char : ℕ → Bool
is_slug_char c = is_lower_letter c || is_ascii_digit c

-- [a-z0-9-]
abbrev pub is_project_char : ℕ → Bool
is_project_char c = is_slug_char c || c =? b'-'

abbrev pub last_of : ℕ → Text → ℕ
last_of c [] = c
last_of c (d ∷ s) = last_of d s

-- ^[a-z][a-z0-9-]{4,28}[a-z0-9]$
unfoldable pub project_id_pattern : Text → Bool
unfolding all
project_id_pattern [] = false
project_id_pattern (c ∷ s) =
    is_lower_letter c
    && all is_project_char s
    && is_slug_char (last_of c s)
    && leb 5 (length s)
    && leb (length s) 29

-- [A-Za-z0-9._+@-]
abbrev pub is_user_char : ℕ → Bool
is_user_char c = is_alnum c || c =? b'.' || c =? b'_' || c =? b'+' || c =? b'@' || c =? b'-'

-- ^[A-Za-z0-9][A-Za-z0-9._+@-]{0,126}$
unfoldable pub user_pattern : Text → Bool
unfolding full_match is_alnum
user_pattern = full_match is_alnum is_user_char 126

-- [A-Z0-9_]
abbrev pub is_variable_char : ℕ → Bool
is_variable_char c = is_upper_letter c || is_ascii_digit c || c =? b'_'

-- ^LOCALCLOUD_[A-Z0-9_]+$
unfoldable pub environment_key_pattern : Text → Bool
unfolding starts_with drop_prefix all
environment_key_pattern key =
    let prefix = codes "LOCALCLOUD_" in
    let rest = drop_prefix prefix key in
    starts_with key prefix && not (is_empty rest) && all is_variable_char rest

unfoldable pub drop_decimals : Text → Text
drop_decimals [] = []
drop_decimals (c ∷ s) = if is_decimal c then drop_decimals s else c ∷ s

abbrev pub starts_decimal : Text → Bool
starts_decimal [] = false
starts_decimal (c ∷ s) = is_decimal c

-- [bkmg] without regard to case: the Kelvin sign folds to k
abbrev pub is_unit : ℕ → Bool
is_unit c =
    c =? b'b'
    || c =? b'B'
    || c =? b'k'
    || c =? b'K'
    || c =? 0x212a
    || c =? b'm'
    || c =? b'M'
    || c =? b'g'
    || c =? b'G'

-- ([bkmg]b?)?$
abbrev pub unit_pattern : Text → Bool
unit_pattern [] = true
unit_pattern (c ∷ []) = is_unit c
unit_pattern (c ∷ d ∷ []) = is_unit c && (d =? b'b' || d =? b'B')
unit_pattern (c ∷ d ∷ e ∷ s) = false

-- (\.\d+)?([bkmg]b?)?$
abbrev pub fraction_pattern : Text → Bool
fraction_pattern [] = true
fraction_pattern (c ∷ s) =
    if c =? b'.' then starts_decimal s && unit_pattern (drop_decimals s) else unit_pattern (c ∷ s)

-- ^\d+(\.\d+)?([bkmg]b?)?$ without regard to case
unfoldable pub memory_pattern : Text → Bool
unfolding drop_decimals
memory_pattern s = starts_decimal s && fraction_pattern (drop_decimals s)

unfoldable pub validate_project : Value → Result Text
validate_project null = ok default_project
validate_project (str t) = if project_id_pattern (strip t) then ok (strip t) else raise invalid
validate_project _ = raise invalid

unfoldable pub validate_user : Value → Result Text
validate_user null = ok default_user
validate_user (str t) = if user_pattern (strip t) then ok (strip t) else raise invalid
validate_user _ = raise invalid

unfoldable pub docker_name : Value → Result Text
docker_name (str t) = if docker_name_pattern (strip t) then ok (strip t) else raise invalid
docker_name _ = raise invalid

-- The loop of `_services`: `seen` is the set of what `normalized` holds.
unfoldable pub services_loop : List Value → List Text → List Text → Result (List Text)
services_loop [] normalized seen = ok normalized
services_loop (str t ∷ rest) normalized seen =
    let service = lower (strip t) in
    let known = services_loop rest normalized seen in
    let new = services_loop rest (normalized ++ service ∷ []) (service ∷ seen) in
    if is_empty (strip t) then raise invalid else if elem service seen then known else new
services_loop (v ∷ rest) normalized seen = raise invalid

unfoldable pub services_list : List Value → Result (Option (List Text))
unfolding services_loop
services_list [] = raise invalid
services_list (v ∷ vs) = services_loop (v ∷ vs) [] [] >>= λ names. ok (some names)

-- `None` for "default", else the normalised identifiers.
unfoldable pub services : Value → Result (Option (List Text))
unfolding services_list
services (str t) = if strip t == codes "default" then ok none else raise invalid
services (list vs) = services_list (elements vs)
services _ = raise invalid

unfoldable pub boolean : Value → Result Bool
boolean (bool b) = ok b
boolean _ = raise invalid

pub data DockerAccessMode : Type 0 where
  auto always never : DockerAccessMode

unfoldable pub docker_access_mode : Value → Result DockerAccessMode
docker_access_mode (bool b) = ok (if b then always else never)
docker_access_mode (str t) =
    if t == codes "auto"
    then ok auto
    else if t == codes "true"
    then ok always
    else if t == codes "false"
    then ok never
    else raise invalid
docker_access_mode _ = raise invalid

unfoldable pub environment_boolean : Text → Result Bool
environment_boolean value =
    let normalized = lower (strip value) in
    if normalized == codes "true"
    then ok true
    else if normalized == codes "false"
    then ok false
    else raise invalid

abbrev pub in_port_range : ℤ → Result ℕ
in_port_range (pos n) = if leb 1 n && leb n 65535 then ok n else raise invalid
in_port_range (negsuc n) = raise invalid

-- `int(…)` is asked for whatever `isdigit` accepts.
unfoldable pub port : Value → Result ℕ
unfolding is_digits
port (int n) = in_port_range n
port (str t) =
    if is_digits (strip t)
    then (do n ← parse_int (strip t); in_port_range (pos n))
    else raise invalid
port _ = raise invalid

unfoldable pub non_blank_string : Value → Result Text
non_blank_string (str t) = if is_empty (strip t) then raise invalid else ok (strip t)
non_blank_string _ = raise invalid

unfoldable pub memory_limit : Value → Result Text
unfolding non_blank_string
memory_limit value = do
  memory ← non_blank_string value
  if memory_pattern memory then ok memory else raise invalid

abbrev pub reserved_host_environment : List Text
reserved_host_environment =
    codes "LOCALCLOUD_CONFIG"
    ∷ codes "LOCALCLOUD_DOCKER_ACCESS"
    ∷ codes "LOCALCLOUD_PROJECT"
    ∷ codes "LOCALCLOUD_DATA_DIR"
    ∷ codes "LOCALCLOUD_SERVICES"
    ∷ codes "LOCALCLOUD_RUNTIME_NETWORK"
    ∷ codes "LOCALCLOUD_DATA_VOLUME"
    ∷ []

-- What the loop of `_environment` stores: nothing for `None`, `str(item)` for another scalar.
abbrev pub environment_value : Value → Result (Option Text)
environment_value (list vs) = raise invalid
environment_value (dict es) = raise invalid
environment_value null = ok none
environment_value (bool b) = ok (some (if b then codes "true" else codes "false"))
environment_value (int n) = ok (some (show_int n))
environment_value (float t n) = ok (some t)
environment_value (str t) = ok (some t)
environment_value (other t) = ok (some t)

abbrev pub store : Text → Option Text → Dict Text → Dict Text
store key none d = d
store key (some t) d = Dict.put key t d

abbrev pub environment_key : Key → Result Text
environment_key (named key) = if environment_key_pattern key then ok key else raise invalid
environment_key (unnamed key) = raise invalid

unfoldable pub environment_item : Key → Value → Dict Text → Result (Dict Text)
unfolding environment_key_pattern elem show_int Dict.put
environment_item k item normalized = do
  key ← environment_key k
  raise_if (elem key reserved_host_environment) invalid
  value ← environment_value item
  ok (store key value normalized)

unfoldable pub environment_items : Items → Dict Text → Result (Dict Text)
unfolding environment_item
environment_items [] normalized = ok normalized
environment_items ((k, v) ∷ rest) normalized =
    environment_item k v normalized >>= λ more. environment_items rest more

unfoldable pub environment : Value → Result (Dict Text)
unfolding environment_items
environment (dict es) = environment_items (items es) []
environment _ = raise invalid
