-- ===== src/Endpoints/Identity.antt =====
-- `identity_environment` of endpoints.py, from a profile that was decoded from JSON.
pub mod Rewritten
use localcloud_cli.Prelude.{
  is_nil, ℕ, Bool, true, false, not, ◌&&◌, ◌||◌, List, [], ◌∷◌, ◌++◌, Option, none, some, pos, all,
  map, if◌then◌else◌, Result, ok, raise, host_error, type_error, identity_sessions_unsupported,
  identity_profile_invalid, ◌>>=◌, ◌>>◌, raise_if, Exception,
}
use localcloud_cli.Text.{Text, codes, ◌==◌, elem}
use localcloud_cli.Text.Numbers.{show_int}
use localcloud_cli.Dict
use localcloud_cli.Dict.{Dict}
use localcloud_cli.Value.{
  Value, null, bool, int, float, str, other, list, dict, Key, named, unnamed, Items, items,
  elements, get, truthy,
}
use localcloud_cli.Endpoints.Proxy.{proxy_bypass}

abbrev pub invalid_profile : Exception
invalid_profile = host_error identity_profile_invalid

abbrev pub cons_item : Text → Text → Option (Dict Text) → Option (Dict Text)
cons_item k t none = none
cons_item k t (some d) = some ((k, t) ∷ d)

-- An object whose names and values are texts.
unfoldable pub text_items : Items → Option (Dict Text)
text_items [] = some []
text_items ((named k, str t) ∷ es) = cons_item k t (text_items es)
text_items (e ∷ es) = none

abbrev pub or_invalid : {A : Type 0} → Option A → Result A
or_invalid none = raise invalid_profile
or_invalid (some a) = ok a

abbrev pub variables_of : Option Value → Result (Dict Text)
variables_of (some (dict es)) = or_invalid (text_items (items es))
variables_of _ = raise invalid_profile

abbrev pub cons_text : Text → Option (List Text) → Option (List Text)
cons_text t none = none
cons_text t (some ts) = some (t ∷ ts)

unfoldable pub texts : List Value → Option (List Text)
texts [] = some []
texts (str t ∷ vs) = cons_text t (texts vs)
texts (v ∷ vs) = none

abbrev pub names_of : Option Value → Result (List Text)
names_of (some (list vs)) = or_invalid (texts (elements vs))
names_of _ = raise invalid_profile

abbrev pub host_of : Option Value → Result Text
host_of (some (str t)) = ok t
host_of _ = raise invalid_profile

-- f"{port}"; `True` and `False` are integers.
abbrev pub port_of : Option Value → Result Text
port_of (some (int n)) = ok (show_int n)
port_of (some (bool b)) = ok (if b then codes "True" else codes "False")
port_of _ = raise invalid_profile

abbrev pub is_kind : Option Value → Bool
is_kind (some (str t)) = t == codes "gce-metadata"
is_kind _ = false

abbrev pub address : Text → Text → Text
address host port = host ++ b':' ∷ port

abbrev pub same_address : Text → Option Text → Bool
same_address t none = false
same_address t (some u) = u == t

-- `environment[name] = …` for each of the names
unfoldable pub put_all : List Text → Text → Dict Text → Dict Text
unfolding Dict.put
put_all [] t d = d
put_all (k ∷ ks) t d = put_all ks t (Dict.put k t d)

-- d.update(e)
unfoldable pub update : Dict Text → Dict Text → Dict Text
unfolding Dict.put
update d [] = d
update d ((k, t) ∷ e) = update (Dict.put k t d) e

-- The texts of a list, the characters of a text, the names of an object.
unfoldable pub kept_texts : List Value → List Text
kept_texts [] = []
kept_texts (str t ∷ vs) = t ∷ kept_texts vs
kept_texts (v ∷ vs) = kept_texts vs

unfoldable pub kept_names : Items → List Text
kept_names [] = []
kept_names ((named k, v) ∷ es) = k ∷ kept_names es
kept_names ((unnamed k, v) ∷ es) = kept_names es

abbrev pub iterated : Value → Result (List Text)
iterated (list vs) = ok (kept_texts (elements vs))
iterated (str t) = ok (map (λ c. c ∷ []) t)
iterated (dict es) = ok (kept_names (items es))
iterated v = raise type_error

-- profile.get("noProxy") or []
abbrev pub bypass_hosts : Option Value → Result (List Text)
bypass_hosts none = ok []
bypass_hosts (some v) = if truthy v then iterated v else ok []

abbrev pub profile_items : Value → Result Items
profile_items (dict es) = ok (items es)
profile_items v = raise (host_error identity_sessions_unsupported)

unfoldable pub identity_environment : Value → ℕ → Dict Text → Result (Dict Text × List Text)
unfolding get text_items texts put_all update kept_texts kept_names proxy_bypass truthy all Dict.get
    show_int
identity_environment profile host_port environ = do
  fields ← profile_items profile
  raise_if (not (is_kind (get (codes "kind") fields))) invalid_profile
  variables ← variables_of (get (codes "environment") fields)
  names ← names_of (get (codes "endpointVariables") fields)
  raise_if (is_nil names) invalid_profile
  host ← host_of (get (codes "metadataHost") fields)
  port ← port_of (get (codes "metadataPort") fields)
  raise_if (not (all (λ k. same_address (address host port) (Dict.get k variables)) names))
      invalid_profile
  let moved = put_all names (address host (show_int (pos host_port))) variables
  hosts ← bypass_hosts (get (codes "noProxy") fields)
  ok (update moved (proxy_bypass environ hosts), names)
