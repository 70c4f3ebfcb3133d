-- ===== src/State/Store/Unhandled.antt =====
-- A state file whose schema version is a list or an object: the `TypeError` of the set lookup.
use localcloud_cli.Prelude.{
  ◌≡◌, false, none, some, Option, ok, raise, type_error, [], ◌∷◌, invalid_active_runtime,
}
use localcloud_cli.Text.{Text, codes}
use localcloud_cli.Value.{Value, Entries, dict, items, get, is_hashable}
use localcloud_cli.State.{ActiveRuntime}
use localcloud_cli.State.Codec.{decode_active_state}
use localcloud_cli.State.Store.{
  json, Home, Faults, load_active_runtime, save_active_runtime, clear_active_runtime,
  checked_runtime,
}

module _ (hexdigest : Text → Text) (es : Entries) (version : Value) (home : Home) (f : Faults)
    (file : home.active ≡ json (dict es))
    (found : get (codes "schema_version") (items es) ≡ some version)
    (unhashable : is_hashable version ≡ false) (prepared : f.lock_file ≡ false)
    (taken : f.flock ≡ false) where
  raised : decode_active_state hexdigest (dict es) ≡ raise type_error
  unfolding decode_active_state
  raised = rw (found, unhashable)

  -- Over a file whose `schema_version` is a list or an object, `load` records a diagnostic, while
  -- `save` of a valid runtime and `clear` of a data volume raise a TypeError and change nothing:
  -- `clear` does not remove the invalid file.
  pub unhashable_schema_version :
      (r selected : ActiveRuntime) (v : Text) (u : Option Text)
      → checked_runtime hexdigest r ≡ ok selected
      → (load_active_runtime hexdigest home.active u ≡ ok (none, invalid_active_runtime ∷ []))
        × (save_active_runtime hexdigest f r home ≡ (raise type_error, home))
        × (clear_active_runtime hexdigest f (some v) home ≡ (raise type_error, home))
  unfolding load_active_runtime save_active_runtime clear_active_runtime
  unhashable_schema_version r selected v u checked = (
    simp (file, raised),
    simp (checked, prepared, taken, file, raised),
    simp (prepared, taken, file, raised),
  )
