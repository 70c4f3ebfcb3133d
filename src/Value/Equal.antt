-- ===== src/Value/Equal.antt =====
-- Python's `==` on values, and the operations that a nested object changes by.
use localcloud_cli.Prelude.{
  ℕ, suc, Bool, true, false, not, ◌&&◌, Option, none, some, ℤ, pos, eq_ℤ, ◌=?◌, if◌then◌else◌,
}
use localcloud_cli.Text.{Text, codes, ◌==◌}
use localcloud_cli.Value.{
  Value, null, bool, int, float, str, other, list, dict, Values, nil, cons, Entries, end, entry,
  Key, named, unnamed,
}

-- The integer that a number equals.
abbrev pub integer : Value → Option ℤ
integer (bool b) = some (pos (if b then 1 else 0))
integer (int n) = some n
integer (float t n) = n
integer _ = none

abbrev pub equal_int : Option ℤ → ℤ → Bool
equal_int none n = false
equal_int (some m) n = eq_ℤ m n

abbrev pub equal_float : Text → Value → Bool
equal_float s (float t none) = s == t && not (s == codes "nan")
equal_float s _ = false

abbrev pub equal_key : Key → Key → Bool
equal_key (named s) (named t) = s == t
equal_key (unnamed s) (unnamed t) = s == t
equal_key _ _ = false

unfoldable pub lookup : Key → Entries → Option Value
lookup k end = none
lookup k (entry j v es) = if equal_key j k then some v else lookup k es

abbrev pub size : Entries → ℕ
size end = 0
size (entry k v es) = suc (size es)

abbrev pub equal_found : (Value → Bool) → Option Value → Bool
equal_found p none = false
equal_found p (some w) = p w

unfoldable mutual
  pub equal : Value → Value → Bool
  equal null null = true
  equal (bool b) w = equal_int (integer w) (pos (if b then 1 else 0))
  equal (int n) w = equal_int (integer w) n
  equal (float s (some n)) w = equal_int (integer w) n
  equal (float s none) w = equal_float s w
  equal (str s) (str t) = s == t
  equal (other s) (other t) = s == t
  equal (list vs) (list ws) = equal_all vs ws
  equal (dict es) (dict fs) = size es =? size fs && found_in es fs
  equal _ _ = false

  pub equal_all : Values → Values → Bool
  equal_all nil nil = true
  equal_all (cons v vs) (cons w ws) = equal v w && equal_all vs ws
  equal_all _ _ = false

  pub found_in : Entries → Entries → Bool
  found_in end fs = true
  found_in (entry k v es) fs = equal_found (equal v) (lookup k fs) && found_in es fs

-- base.pop(k, None)
unfoldable pub pop : Text → Entries → Entries
pop k end = end
pop k (entry j v es) = if equal_key j (named k) then es else entry j v (pop k es)

-- base[k] = v
unfoldable pub set_entry : Text → Value → Entries → Entries
set_entry k v end = entry (named k) v end
set_entry k v (entry j w es) =
    if equal_key j (named k) then entry j v es else entry j w (set_entry k v es)
