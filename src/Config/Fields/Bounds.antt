-- ===== src/Config/Fields/Bounds.antt =====
-- What the checks of single fields let pass.
use localcloud_cli.Prelude.{
  ℕ, ◌≤◌, ◌≡◌, refl, Bool, true, false, ◌&&◌, [], ◌∷◌, Option, none, some, ℤ, pos, negsuc, leb,
  arith, All, all, Exception, ok, raise_if,
}
use localcloud_cli.Prelude.{
  Returns, Returns-ok, Returns-raise, Returns-if, Returns-bind, Returns-after,
}
use localcloud_cli.Text.{Text, codes, is_digits, strip, elem}
use localcloud_cli.Text.Numbers.{parse_int}
use localcloud_cli.Dict.{Dict}
use localcloud_cli.Dict.Laws.{put-All}
use localcloud_cli.Value.{
  Value, null, bool, int, float, str, other, list, dict, Key, named, unnamed, Items, items,
}
use localcloud_cli.State.{docker_name_pattern}
use localcloud_cli.Config.Fields.{
  docker_name, user_pattern, default_user, validate_user, memory_pattern, memory_limit,
  non_blank_string, invalid, port, in_port_range, environment, environment_items, environment_item,
  environment_key, environment_value, environment_key_pattern, reserved_host_environment, store,
}

pub passed : (b : Bool) (e : Exception) (u : Unit {0}) → raise_if b e ≡ ok u → b ≡ false
passed true e u h = cc
passed false e u h = refl

-- A TCP port.
abbrev pub IsPort : ℕ → Type 0
IsPort n = (1 ≤ n) × (n ≤ 65535)

in_port_range-IsPort : (n : ℤ) → Returns IsPort (in_port_range n)
in_port_range-IsPort (pos n) =
    Returns-if (leb 1 n && leb n 65535) _ _ (λ h. Returns-ok n (ground arith, ground arith))
      λ h. Returns-raise invalid
in_port_range-IsPort (negsuc n) = Returns-raise invalid

pub port-Returns : (v : Value) → Returns IsPort (port v)
unfolding port
port-Returns null = Returns-raise invalid
port-Returns (bool b) = Returns-raise invalid
port-Returns (int n) = in_port_range-IsPort n
port-Returns (float t n) = Returns-raise invalid
port-Returns (str t) =
    Returns-if (is_digits (strip t)) _ _
      (λ h. Returns-after (parse_int (strip t)) _ λ n k. in_port_range-IsPort (pos n))
      λ h. Returns-raise invalid
port-Returns (other t) = Returns-raise invalid
port-Returns (list vs) = Returns-raise invalid
port-Returns (dict es) = Returns-raise invalid

-- A variable that the user may set: it has the name of one, and none that LocalCloud sets itself.
abbrev pub IsUserVariable : Text × Text → Type 0
IsUserVariable (key, value) =
    (environment_key_pattern key ≡ true) × (elem key reserved_host_environment ≡ false)

store-All :
    (key : Text) (value : Option Text) (d : Dict Text)
    → environment_key_pattern key ≡ true
    → elem key reserved_host_environment ≡ false
    → All IsUserVariable d
    → All IsUserVariable (store key value d)
store-All key none d p q h = h
store-All key (some value) d p q h = put-All IsUserVariable key value d (p, q) h

environment_key-pattern :
    (k : Key) → Returns (λ key. environment_key_pattern key ≡ true) (environment_key k)
environment_key-pattern (named key) =
    Returns-if _ _ _ (λ h. Returns-ok key h) λ h. Returns-raise invalid
environment_key-pattern (unnamed key) = Returns-raise invalid

environment_item-All :
    (k : Key) (v : Value) (d : Dict Text)
    → All IsUserVariable d
    → Returns (All IsUserVariable) (environment_item k v d)
unfolding environment_item
environment_item-All k v d h =
    Returns-bind (environment_key k) _ (environment_key-pattern k) λ key p.
      Returns-after (raise_if (elem key reserved_host_environment) invalid) _ λ u q.
        Returns-after (environment_value v) _ λ value e.
          Returns-ok (store key value d) (store-All key value d p (passed _ invalid u q) h)

environment_items-All :
    (es : Items) (d : Dict Text)
    → All IsUserVariable d
    → Returns (All IsUserVariable) (environment_items es d)
unfolding environment_items
environment_items-All [] d h = Returns-ok d h
environment_items-All ((k, v) ∷ es) d h =
    Returns-bind (environment_item k v d) _ (environment_item-All k v d h)
      λ more p. environment_items-All es more p

-- Every variable that an accepted `host.environment` sets is named LOCALCLOUD_ and then capital
-- letters, digits and underscores, and none is a variable that LocalCloud sets itself.
pub environment-IsUserVariable :
    (v : Value) (variables : Dict Text)
    → environment v ≡ ok variables
    → All IsUserVariable variables
unfolding environment
environment-IsUserVariable (dict es) variables h =
    (environment_items-All (items es) [] tt).at variables h
environment-IsUserVariable null variables h = cc
environment-IsUserVariable (bool b) variables h = cc
environment-IsUserVariable (int n) variables h = cc
environment-IsUserVariable (float t n) variables h = cc
environment-IsUserVariable (str t) variables h = cc
environment-IsUserVariable (other t) variables h = cc
environment-IsUserVariable (list vs) variables h = cc

pub docker_name-Returns : (v : Value) → Returns (λ t. docker_name_pattern t ≡ true) (docker_name v)
unfolding docker_name
docker_name-Returns (str t) =
    Returns-if _ _ _ (λ h. Returns-ok (strip t) h) λ h. Returns-raise invalid
docker_name-Returns null = Returns-raise invalid
docker_name-Returns (bool b) = Returns-raise invalid
docker_name-Returns (int n) = Returns-raise invalid
docker_name-Returns (float t n) = Returns-raise invalid
docker_name-Returns (other t) = Returns-raise invalid
docker_name-Returns (list vs) = Returns-raise invalid
docker_name-Returns (dict es) = Returns-raise invalid

default_user-pattern : user_pattern default_user ≡ true
unfolding user_pattern codes all
default_user-pattern = refl

pub validate_user-Returns : (v : Value) → Returns (λ t. user_pattern t ≡ true) (validate_user v)
unfolding validate_user
validate_user-Returns (str t) =
    Returns-if _ _ _ (λ h. Returns-ok (strip t) h) λ h. Returns-raise invalid
validate_user-Returns null = Returns-ok default_user default_user-pattern
validate_user-Returns (bool b) = Returns-raise invalid
validate_user-Returns (int n) = Returns-raise invalid
validate_user-Returns (float t n) = Returns-raise invalid
validate_user-Returns (other t) = Returns-raise invalid
validate_user-Returns (list vs) = Returns-raise invalid
validate_user-Returns (dict es) = Returns-raise invalid

pub memory_limit-Returns : (v : Value) → Returns (λ t. memory_pattern t ≡ true) (memory_limit v)
unfolding memory_limit
memory_limit-Returns v =
    Returns-after (non_blank_string v) _
      λ t e. Returns-if _ _ _ (λ h. Returns-ok t h) λ h. Returns-raise invalid
