-- ===== src/Value/Assign.antt =====
-- What stands under a key after `d[k] = v` on a value of an object.
use localcloud_cli.Prelude.{◌≡◌, refl, false, some, if◌then◌else◌, Bool-cases, inl, inr, arith}
use localcloud_cli.Text.{Text, ◌==◌}
use localcloud_cli.Text.Laws.{==_iff, ==_refl}
use localcloud_cli.Value.{Value, Entries, end, entry, named, unnamed, items, get}
use localcloud_cli.Value.Equal.{set_entry}

pub get-set_entry :
    (j k : Text) (v : Value) (es : Entries)
    → get k (items (set_entry j v es)) ≡ (if j == k then some v else get k (items es))
unfolding get set_entry
get-set_entry j k v end = refl
get-set_entry j k v (entry (named i) w es) = elim (Bool-cases (i == j)) [
  | inl same ↦ ground (arith, get-set_entry j k v es, (==_iff i j).0 same, same)
  | inr other ↦ ground (arith, get-set_entry j k v es, ==_iff i j, ==_iff i k, ==_iff j k, other)
]
get-set_entry j k v (entry (unnamed i) w es) = get-set_entry j k v es

pub get-set_other :
    (j k : Text) (v : Value) (es : Entries)
    → (j == k) ≡ false
    → get k (items (set_entry j v es)) ≡ get k (items es)
get-set_other j k v es h = rw h at (get-set_entry j k v es)

pub get-set_same : (k : Text) (v : Value) (es : Entries) → get k (items (set_entry k v es)) ≡ some v
get-set_same k v es = rw (==_refl k) at (get-set_entry k k v es)
