-- ===== src/Config/Ports.antt =====
-- `_service_ports`, `_port_range` and `_mysql_port` of config.py.
pub mod Ranges
use localcloud_cli.Prelude.{
  ℕ, Bool, true, false, not, ◌&&◌, ◌||◌, List, [], ◌∷◌, ◌++◌, Option, none, some, ℤ, pos, negsuc,
  leb, ltb, eq_ℤ, if◌then◌else◌, Result, ok, raise, ◌>>=◌, ◌>>◌,
}
use localcloud_cli.Text.{Text, codes, ◌==◌, elem, strip, lower, is_digits, partition, ends_with}
use localcloud_cli.Text.Numbers.{parse_int, show_int}
use localcloud_cli.Dict
use localcloud_cli.Dict.{Dict}
use localcloud_cli.Value.{
  Value, null, bool, int, float, str, other, list, dict, Values, Entries, end, entry, Key, named,
  unnamed, Items, items, get,
}
use localcloud_cli.Config.Fields.{invalid, port}
use localcloud_cli.Config.Catalog.{Catalog, or_empty}

abbrev pub key_text : Key → Text
key_text (named t) = t
key_text (unnamed t) = t

-- A key under which an integer is a port.
unfoldable pub is_port_key : Text → Bool
unfolding ends_with
is_port_key key =
    key == codes "port" || ends_with key (codes "Port") || ends_with key (codes "_port")

unfoldable mutual
  unfolding is_port_key ends_with

  pub collect : Value → Text → Bool → List ℤ
  collect (dict es) key in_port_map = collect_children es (ends_with key (codes "Ports"))
  collect (int n) key in_port_map = if in_port_map || is_port_key key then n ∷ [] else []
  collect _ key in_port_map = []

  pub collect_children : Entries → Bool → List ℤ
  collect_children end in_port_map = []
  collect_children (entry k child es) in_port_map =
      collect child (key_text k) in_port_map ++ collect_children es in_port_map

-- m <= n
abbrev pub leb_ℤ : ℤ → ℤ → Bool
leb_ℤ (pos m) (pos n) = leb m n
leb_ℤ (negsuc m) (negsuc n) = leb n m
leb_ℤ (negsuc m) (pos n) = true
leb_ℤ (pos m) (negsuc n) = false

unfoldable pub insert_port : ℤ → List ℤ → List ℤ
insert_port p [] = p ∷ []
insert_port p (q ∷ qs) =
    let later = q ∷ insert_port p qs in
    if eq_ℤ p q then q ∷ qs else if leb_ℤ p q then p ∷ q ∷ qs else later

-- sorted(set(ports))
unfoldable pub sorted_set : List ℤ → List ℤ
unfolding insert_port
sorted_set [] = []
sorted_set (p ∷ ps) = insert_port p (sorted_set ps)

unfoldable pub all_ports : Catalog → List Text → List ℤ
unfolding collect
all_ports catalog [] = []
all_ports catalog (service_id ∷ services) =
    collect (dict (or_empty (Dict.get service_id catalog))) service_id false
    ++ all_ports catalog services

unfoldable pub service_ports : Catalog → List Text → List ℤ
unfolding all_ports sorted_set
service_ports catalog services = sorted_set (all_ports catalog services)

-- `str(value).strip() if isinstance(value, (str, int)) else ""`
abbrev pub range_text : Value → Text
range_text (bool b) = if b then codes "True" else codes "False"
range_text (int n) = show_int n
range_text (str t) = t
range_text _ = []

-- `1024 <= int(start_text) <= int(end_text) <= 65535`, and what is returned.
unfoldable pub checked_range : Text → Text → Result (ℕ × ℕ)
checked_range start_text end_text = do
  start ← parse_int (strip start_text)
  if ltb start 1024 then raise invalid else do
    last ← parse_int (strip end_text)
    if leb start last && leb last 65535 then ok (start, last) else raise invalid

abbrev pub parsed_range : Text × Bool × Text → Result (ℕ × ℕ)
parsed_range (start_text, separator, end_text) =
    if separator && is_digits (strip start_text) && is_digits (strip end_text)
    then checked_range start_text end_text
    else raise invalid

unfoldable pub port_range : Value → Result (ℕ × ℕ)
unfolding checked_range partition
port_range value = parsed_range (partition b'-' (strip (range_text value)))

-- `str(enabled).strip().lower() == "false"`; the text of a list or an object is none of this.
abbrev pub is_false_text : Value → Bool
is_false_text (bool b) = not b
is_false_text (str t) = lower (strip t) == codes "false"
is_false_text (float t n) = lower (strip t) == codes "false"
is_false_text (other t) = lower (strip t) == codes "false"
is_false_text _ = false

-- `settings.get("mysql_enabled", True)` of the definition's `config`, where that is an object.
abbrev pub mysql_setting : Option Value → Option Value
mysql_setting (some (dict settings)) = get (codes "mysql_enabled") (items settings)
mysql_setting _ = none

abbrev pub is_disabled : Option Value → Bool
is_disabled none = false
is_disabled (some enabled) = is_false_text enabled

abbrev pub catalog_port : Option Value → Option Value
catalog_port (some (dict ports)) = get (codes "mysql") (items ports)
catalog_port _ = none

abbrev pub optional_port : Option Value → Result (Option ℕ)
optional_port none = ok none
optional_port (some null) = ok none
optional_port (some v) = port v >>= λ n. ok (some n)

-- `0` lets Docker pick a free port.
abbrev pub environment_port : Text → Result (Option ℕ)
environment_port value =
    if value == codes "0" then ok none else port (str value) >>= λ n. ok (some n)

abbrev pub configured_port : Option Text → Items → Result (Option ℕ)
configured_port none definition =
    optional_port (catalog_port (get (codes "additionalPorts") definition))
configured_port (some value) definition = environment_port (strip value)

unfoldable pub mysql_port : Catalog → List Text → Dict Text → Result (Option ℕ)
unfolding get elem
mysql_port catalog services environment =
    let definition = items (or_empty (Dict.get (codes "cloudsql") catalog)) in
    if not (elem (codes "cloudsql") services)
    then ok none
    else if is_disabled (mysql_setting (get (codes "config") definition))
    then ok none
    else configured_port (Dict.get (codes "LOCALCLOUD_MYSQL_PORT") environment) definition
