-- ===== src/Prelude/Errors.antt =====
-- errors.py: the exceptions that the modelled code raises or catches. A `HostError` is known by
-- its code; its message and its details are text for the user, and are not modelled.
use mathlib.Core.Path.{◌≡◌, refl}
use mathlib.Core.Bool.{Bool, true, false}

-- The codes of the `HostError`s.
pub data Code : Type 0 where
  invalid_data_volume invalid_active_runtime active_runtime_unreadable : Code
  active_runtime_write_failed host_lock_failed : Code
  invalid_config removed_flat_config legacy_runtime_selector config_validation_skipped : Code
  config_missing invalid_config_directory : Code
  alternative_ports_unavailable transparent_port_unavailable : Code
  identity_sessions_unsupported identity_profile_invalid : Code
  ownership_mismatch ownership_forbidden data_volume_collision data_volume_missing : Code
  invalid_data_volume_mount runtime_not_found runtime_exists container_missing : Code
  container_changed container_stop_failed cleanup_failed docker_inspect_failed : Code
  container_start_failed container_restart_failed : Code
  resource_name_in_use environment_create_failed port_no_longer_available : Code

pub data Exception : Type 0 where
  host_error : Code → Exception
  value_error type_error key_error os_error file_not_found unicode_error runtime_error index_error
        recursion_error :
      Exception

-- What a call ends with.
pub data Result {ℓ} (T : Type ℓ) : Type ℓ where
  raise : Exception → Result T
  ok : T → Result T

infixl 5 ◌>>=◌ ◌>>◌
abbrev pub ◌>>=◌ {ℓ κ} : {T : Type ℓ} {U : Type κ} → Result T → (T → Result U) → Result U
raise error >>= next = raise error
ok value >>= next = next value

abbrev pub ◌>>◌ {ℓ κ} : {T : Type ℓ} {U : Type κ} → Result T → Result U → Result U
first >> second = first >>= λ _. second

-- `if test: raise e`
abbrev pub raise_if : Bool → Exception → Result (Unit {0})
raise_if true e = raise e
raise_if false e = ok tt

module _ {ℓ} {T : Type ℓ} where
  pub ok-injective : (t u : T) → ok t ≡ ok u → t ≡ u
  ok-injective t u same = cc

  -- A block that returns has a first step that returned.
  pub bind_inversion {κ} :
      {U : Type κ} {u : U} (next : T → Result U) (first : Result T)
      → (first >>= next) ≡ ok u
      → (t : T) × (first ≡ ok t) × (next t ≡ ok u)
  bind_inversion next (raise error) h = cc
  bind_inversion next (ok t) h = (t, refl, h)
