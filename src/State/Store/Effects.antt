-- ===== src/State/Store/Effects.antt =====
-- What one call leaves in the directory, whatever the operating system refuses.
use localcloud_cli.Prelude.{
  ◌≡◌, refl, false, ◌⊎◌, Option, none, some, arith, Result, ok, raise, Raises, Raises-after,
  Raises-ok, type_error, value_error, host_error,
}
use localcloud_cli.Text.{Text}
use localcloud_cli.Value.{Value, str}
use localcloud_cli.State.{ActiveRuntime, validate_data_volume}
use localcloud_cli.State.Codec.{State, decode_active_state}
use localcloud_cli.State.Codec.Errors.{IsCaught, decode-Raises, validate_data_volume-Raises}
use localcloud_cli.State.Store.{
  File, missing, unreadable, not_utf_8, not_json, too_nested, json, Home, Faults,
  write_active_state_file, load_active_runtime, select_runtime, or_diagnostic, Loaded,
}

-- One write, from `home` to `after` with the result `r`.
pub record IsAtomic (f : Faults) (document : Value) (home : Home) (r : Result (Unit {0}))
    (after : Home) : Type 0 where
  pub whole : (after.active ≡ home.active) ⊎ (after.active ≡ json document)
  pub written : r ≡ ok tt → after.active ≡ json document
  pub clean : f.unlink_temporary ≡ false → after.temporaries ≡ home.temporaries

-- Whatever the system refuses, a write of the state file leaves the old file or the whole new
-- document, the new one whenever it returns, and no new temporary file unless removing it fails.
pub write-IsAtomic :
    (f : Faults) (document : Value) (home : Home)
    → IsAtomic f document home
        (write_active_state_file f document home).0
        (write_active_state_file f document home).1
unfolding write_active_state_file
write-IsAtomic f document home = ground arith

module _ (hexdigest : Text → Text) where
  select_runtime-Raises :
      (v : Option Text) (s : State) → Raises IsCaught (select_runtime hexdigest v s)
  unfolding select_runtime
  select_runtime-Raises none s = Raises-ok _
  select_runtime-Raises (some v) s =
      Raises-after (validate_data_volume (str v)) _ (validate_data_volume-Raises (str v))
        λ _ _. Raises-ok _

  or_diagnostic-total :
      (r : Result (Option ActiveRuntime))
      → Raises IsCaught r
      → (l : Loaded) × (or_diagnostic hexdigest r ≡ ok l)
  unfolding or_diagnostic
  or_diagnostic-total (ok found) h = (_, refl)
  or_diagnostic-total (raise (host_error c)) h = (_, refl)
  or_diagnostic-total (raise type_error) h = (_, refl)
  or_diagnostic-total (raise value_error) h = (_, refl)
  or_diagnostic-total (raise e) h = absurd (h.at e refl)

  -- Loading returns, whatever stands in the file and whichever data volume is asked for, unless the
  -- text of the file is nested too deeply for the JSON reader.
  pub load_total :
      (file : File) (v : Option Text)
      → ¬ (file ≡ too_nested)
      → (l : Loaded) × (load_active_runtime hexdigest file v ≡ ok l)
  unfolding load_active_runtime
  load_total missing v flat = (_, refl)
  load_total unreadable v flat = (_, refl)
  load_total not_utf_8 v flat = (_, refl)
  load_total not_json v flat = (_, refl)
  load_total too_nested v flat = absurd (flat refl)
  load_total (json d) v flat = or_diagnostic-total _ (
      Raises-after (decode_active_state hexdigest d) _ (decode-Raises hexdigest d)
        λ s _. select_runtime-Raises v s)
