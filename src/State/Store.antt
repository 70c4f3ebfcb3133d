-- ===== src/State/Store.antt =====
-- `load_active_runtime`, `save_active_runtime` and `clear_active_runtime` of state.py, over the
-- directory that they read and write. What the operating system refuses is a `Faults`, the
-- environment's choice for one call.
pub mod Effects
pub mod Found
pub mod Save
pub mod Clear
pub mod Invariant
pub mod Unhandled
use localcloud_cli.Prelude.{
  is_nil, ℕ, suc, ◌-◌, ◌≡◌, Bool, true, false, not, List, [], ◌∷◌, ◌++◌, Option, none, some, eq_ℤ,
  if◌then◌else◌, Code, Exception, Result, ok, raise, host_error, value_error, type_error, os_error,
  key_error, runtime_error, recursion_error, unicode_error, file_not_found, invalid_active_runtime,
  active_runtime_unreadable, active_runtime_write_failed, host_lock_failed, raise_if, ◌>>=◌, ◌>>◌,
}
use localcloud_cli.Text.{Text, ◌==◌, is_empty}
use localcloud_cli.Dict
use localcloud_cli.Dict.{Dict}
use localcloud_cli.Value.{Value, str, null}
use localcloud_cli.State.{
  ActiveRuntime, Names, active_runtime_schema_version, validate_data_volume, default_resource_names,
  non_blank_string, docker_name,
}
use localcloud_cli.State.Codec.{State, decode_active_state, payload, or_text}

-- The file active-runtime.json: absent, not to be read (two ways), no JSON, nested too deeply for the
-- JSON reader, or a document.
pub data File : Type 0 where
  missing unreadable not_utf_8 not_json too_nested : File
  json : Value → File

pub record Home : Type 0 where
  pub active : File
  pub temporaries : ℕ

-- json.loads(path.read_text(encoding="utf-8"))
unfoldable pub read_json : File → Result Value
read_json missing = raise file_not_found
read_json unreadable = raise os_error
read_json not_utf_8 = raise unicode_error
read_json not_json = raise value_error
read_json too_nested = raise recursion_error
read_json (json v) = ok v

-- What fails in a call: preparing the lock, taking it, making the temporary file, writing it,
-- renaming it, syncing the directory, removing the temporary file, removing the state file.
pub record Faults : Type 0 where
  pub lock_file : Bool
  pub flock : Bool
  pub mkstemp : Bool
  pub write : Bool
  pub replace : Bool
  pub fsync_directory : Bool
  pub unlink_temporary : Bool
  pub unlink_active : Bool

abbrev pub no_faults : Faults
no_faults = record {
  lock_file = false;
  flock = false;
  mkstemp = false;
  write = false;
  replace = false;
  fsync_directory = false;
  unlink_temporary = false;
  unlink_active = false;
}

abbrev pub Exec : Type 0 → Type 0
Exec A = Home → Result A × Home

-- `_file_lock`: the body runs only under the lock.
unfoldable pub file_lock : {A : Type 0} → Faults → Exec A → Exec A
file_lock f body home =
    if f.lock_file
    then (raise (host_error host_lock_failed), home)
    else if f.flock
    then (raise (host_error host_lock_failed), home)
    else body home

abbrev pub write_failed : Exception
write_failed = host_error active_runtime_write_failed

-- The `finally` of the write: `temporary.unlink(missing_ok=True)` on a file that is there. Its own
-- failure takes the place of the error under way.
unfoldable pub drop_temporary : Faults → Result (Unit {0}) → Exec (Unit {0})
drop_temporary f r home =
    if f.unlink_temporary
    then (raise os_error, home)
    else (r, record home { temporaries = home.temporaries - 1 })

-- `_write_active_state_file`. After the rename the temporary file is gone, and `unlink` finds none.
unfoldable pub write_active_state_file : Faults → Value → Exec (Unit {0})
unfolding drop_temporary
write_active_state_file f document home =
    let prepared = record home { temporaries = suc home.temporaries } in
    let replaced = record home { active = json document } in
    if f.mkstemp
    then (raise write_failed, home)
    else if f.write
    then drop_temporary f (raise write_failed) prepared
    else if f.replace
    then drop_temporary f (raise write_failed) prepared
    else if f.fsync_directory
    then (raise write_failed, replaced)
    else (ok tt, replaced)

-- paths.active_runtime.unlink(missing_ok=True)
unfoldable pub unlink_active : Faults → Exec (Unit {0})
unlink_active f home =
    if f.unlink_active
    then (raise write_failed, home)
    else (ok tt, record home { active = missing })

-- What `load` does with an exception of its second `try`, and of the reading.
abbrev pub caught : Exception → Bool
caught (host_error c) = true
caught type_error = true
caught value_error = true
caught unicode_error = true
caught _ = false

-- A value, and the codes of the diagnostics that are recorded.
abbrev pub Loaded : Type 0
Loaded = Option ActiveRuntime × List Code

module _ (hexdigest : Text → Text) where
  unfoldable pub select_runtime : Option Text → State → Result (Option ActiveRuntime)
  select_runtime none (runtimes, last_active) = ok (Dict.get last_active runtimes)
  select_runtime (some data_volume) (runtimes, last_active) = do
    selected ← validate_data_volume (str data_volume)
    ok (Dict.get selected runtimes)

  -- The handler of the second `try`.
  unfoldable pub or_diagnostic : Result (Option ActiveRuntime) → Result Loaded
  or_diagnostic (ok found) = ok (found, [])
  or_diagnostic (raise e) = if caught e then ok (none, invalid_active_runtime ∷ []) else raise e

  abbrev pub load_document : Result Value → Option Text → Result Loaded
  load_document (ok v) data_volume =
      or_diagnostic (decode_active_state hexdigest v >>= select_runtime data_volume)
  load_document (raise file_not_found) data_volume = ok (none, [])
  load_document (raise os_error) data_volume = ok (none, active_runtime_unreadable ∷ [])
  load_document (raise unicode_error) data_volume = ok (none, active_runtime_unreadable ∷ [])
  load_document (raise e) data_volume = or_diagnostic (raise e)

  unfoldable pub load_active_runtime : File → Option Text → Result Loaded
  unfolding read_json or_diagnostic select_runtime
  load_active_runtime file data_volume = load_document (read_json file) data_volume

  -- What `save` reads under the lock: no file is no runtime.
  abbrev pub or_nothing : Result State → Result (Dict ActiveRuntime)
  or_nothing (ok (runtimes, last_active)) = ok runtimes
  or_nothing (raise file_not_found) = ok []
  or_nothing (raise os_error) = raise write_failed
  or_nothing (raise unicode_error) = raise write_failed
  or_nothing (raise value_error) = raise (host_error invalid_active_runtime)
  or_nothing (raise e) = raise e

  unfoldable pub existing_runtimes : File → Result (Dict ActiveRuntime)
  unfolding read_json
  existing_runtimes file = or_nothing (read_json file >>= decode_active_state hexdigest)

  abbrev pub or_name : Option Text → Text → Value
  or_name none default = str default
  or_name (some t) default = if is_empty t then str default else str t

  -- The record that `save` stores.
  unfoldable pub checked_runtime : ActiveRuntime → Result ActiveRuntime
  checked_runtime runtime = do
    raise_if (not (eq_ℤ runtime.schema_version active_runtime_schema_version))
        (host_error invalid_active_runtime)
    volume ← validate_data_volume (str runtime.data_volume)
    names ← default_resource_names hexdigest volume
    image ← non_blank_string (str runtime.image)
    container_id ← non_blank_string (str runtime.container_id)
    container_name ← docker_name (or_name runtime.container_name names.container)
    network_name ← docker_name (or_name runtime.network_name names.network)
    ok (record {
      schema_version = active_runtime_schema_version;
      data_volume = volume;
      image = image;
      container_id = container_id;
      container_name = some container_name;
      network_name = some network_name;
    })

  abbrev pub then_write : Faults → ActiveRuntime → Result (Dict ActiveRuntime) → Exec (Unit {0})
  then_write f selected (ok runtimes) home =
      let volume = selected.data_volume in
      write_active_state_file f (payload (Dict.put volume selected runtimes) volume) home
  then_write f selected (raise e) home = (raise e, home)

  unfoldable pub save_checked : Faults → Result ActiveRuntime → Exec (Unit {0})
  unfolding file_lock existing_runtimes write_active_state_file
  save_checked f (ok selected) home =
      file_lock f (λ h. then_write f selected (existing_runtimes h.active) h) home
  save_checked f (raise e) home = (raise e, home)

  unfoldable pub save_active_runtime : Faults → ActiveRuntime → Exec (Unit {0})
  unfolding checked_runtime save_checked
  save_active_runtime f runtime home = save_checked f (checked_runtime runtime) home

  -- next(iter(runtimes))
  abbrev pub first_key : Dict ActiveRuntime → Text → Text
  first_key [] default = default
  first_key ((k, r) ∷ d) default = k

  -- `del runtimes[selected_volume]` and what is written then.
  unfoldable pub write_without : Faults → Text → State → Exec (Unit {0})
  unfolding write_active_state_file unlink_active
  write_without f selected (runtimes, last_active) home =
      let rest = Dict.remove selected runtimes in
      let new_last = if last_active == selected then first_key rest last_active else last_active in
      if is_nil rest
      then unlink_active f home
      else write_active_state_file f (payload rest new_last) home

  -- `if selected_volume not in runtimes: return`
  abbrev pub clear_found : Faults → Text → State → Option ActiveRuntime → Exec (Unit {0})
  clear_found f selected s none home = (ok tt, home)
  clear_found f selected s (some r) home = write_without f selected s home

  abbrev pub clear_selected : Faults → State → Result Text → Exec (Unit {0})
  clear_selected f s (raise e) home = (raise e, home)
  clear_selected f s (ok selected) home = clear_found f selected s (Dict.get selected s.0) home

  -- The handlers round the reading: an invalid file is removed, a `TypeError` and a
  -- `RecursionError` are not handled.
  abbrev pub clear_read : Faults → Text → Result State → Exec (Unit {0})
  clear_read f data_volume (ok s) home =
      clear_selected f s (validate_data_volume (str data_volume)) home
  clear_read f data_volume (raise file_not_found) home = (ok tt, home)
  clear_read f data_volume (raise type_error) home = (raise type_error, home)
  clear_read f data_volume (raise key_error) home = (raise key_error, home)
  clear_read f data_volume (raise runtime_error) home = (raise runtime_error, home)
  clear_read f data_volume (raise recursion_error) home = (raise recursion_error, home)
  clear_read f data_volume (raise e) home = unlink_active f home

  abbrev pub clear_locked : Faults → Option Text → Exec (Unit {0})
  clear_locked f none home = unlink_active f home
  clear_locked f (some data_volume) home =
      clear_read f data_volume (read_json home.active >>= decode_active_state hexdigest) home

  unfoldable pub clear_active_runtime : Faults → Option Text → Exec (Unit {0})
  unfolding file_lock unlink_active write_without read_json
  clear_active_runtime f data_volume home = file_lock f (clear_locked f data_volume) home
