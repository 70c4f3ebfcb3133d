-- ===== src/State/Codec/Errors.antt =====
-- The exceptions of the decoder: those that `load_active_runtime` catches, and no `KeyError`.
use localcloud_cli.Prelude.{
  is_nil, ◌≡◌, refl, Bool, true, not, List, [], ◌∷◌, raise, Exception, host_error, value_error,
  type_error, raise_if, Raises, Raises-ok, Raises-raise, Raises-if, Raises-raise_if, Raises-after,
  ◌||◌, pos,
}
use localcloud_cli.Text.{Text, codes, ◌==◌, elem}
use localcloud_cli.Dict
use localcloud_cli.Dict.{Dict}
use localcloud_cli.Value.{
  Value, Key, Items, null, str, dict, or_null, get, get_item, has_fields, equals_int, is_hashable,
}
use localcloud_cli.Value.Fields.{has_of_fields, get_item-Raises}
use localcloud_cli.State.{
  ActiveRuntime, active_runtime_schema_version, validate_data_volume, non_blank_string, docker_name,
  default_resource_names,
}
use localcloud_cli.State.Codec.{
  decode_runtime_entry, decode_item, decode_runtimes, decode_new_state, decode_old_state,
  decode_version, decode_items, decode_active_state, as_items, key_value, is_known, entry_fields,
  state_fields, old_fields, or_text,
}
use localcloud_cli.State.Codec.Sound.{eq_of_raise_if}

-- HostError, TypeError or ValueError.
abbrev pub IsCaught : Exception → Type 0
IsCaught (host_error c) = Unit
IsCaught type_error = Unit
IsCaught value_error = Unit
IsCaught _ = ⊥

pub validate_data_volume-Raises : (v : Value) → Raises IsCaught (validate_data_volume v)
unfolding validate_data_volume
validate_data_volume-Raises null = Raises-ok _
validate_data_volume-Raises (str t) = Raises-if _ _ _ (Raises-ok _) (Raises-raise _ tt)
validate_data_volume-Raises _ = Raises-raise _ tt

non_blank_string-Raises : (v : Value) → Raises IsCaught (non_blank_string v)
unfolding non_blank_string
non_blank_string-Raises (str t) = Raises-if _ _ _ (Raises-raise _ tt) (Raises-ok _)
non_blank_string-Raises _ = Raises-raise _ tt

docker_name-Raises : (v : Value) → Raises IsCaught (docker_name v)
unfolding docker_name
docker_name-Raises v =
    Raises-after (non_blank_string v) _ (non_blank_string-Raises v)
      λ t _. Raises-if _ _ _ (Raises-ok _) (Raises-raise _ tt)

as_items-Raises : (v : Value) → Raises IsCaught (as_items v)
as_items-Raises (dict es) = Raises-ok _
as_items-Raises _ = Raises-raise _ tt

module _ (fields : List Text) (raw : Items) (h : has_fields fields raw ≡ true) where
  field-Raises : (k : Text) → elem k fields ≡ true → Raises IsCaught (get_item k raw)
  field-Raises k e = get_item-Raises k raw (has_of_fields fields raw k h e)

decode_runtime_entry-Raises : (raw : Items) → Raises IsCaught (decode_runtime_entry raw)
unfolding decode_runtime_entry codes elem ◌==◌
decode_runtime_entry-Raises raw =
    Raises-after (raise_if (not (has_fields entry_fields raw)) value_error) _
      (Raises-raise_if _ _ tt)
      λ u e.
        let field = field-Raises entry_fields raw (eq_of_raise_if _ _ u e) in
        Raises-after (get_item (codes "data_volume") raw) _ (field _ refl) λ v1 _.
          Raises-after (validate_data_volume v1) _ (validate_data_volume-Raises v1) λ _ _.
            Raises-after (get_item (codes "image") raw) _ (field _ refl) λ v2 _.
              Raises-after (non_blank_string v2) _ (non_blank_string-Raises v2) λ _ _.
                Raises-after (get_item (codes "container_id") raw) _ (field _ refl) λ v3 _.
                  Raises-after (non_blank_string v3) _ (non_blank_string-Raises v3) λ _ _.
                    Raises-after (get_item (codes "container_name") raw) _ (field _ refl) λ v4 _.
                      Raises-after (docker_name v4) _ (docker_name-Raises v4) λ _ _.
                        Raises-after (get_item (codes "network_name") raw) _ (field _ refl) λ v5 _.
                          Raises-after (docker_name v5) _ (docker_name-Raises v5) λ _ _. Raises-ok _

decode_item-Raises :
    (k : Key) (v : Value) (rs : Dict ActiveRuntime) → Raises IsCaught (decode_item k v rs)
unfolding decode_item
decode_item-Raises k v rs =
    Raises-after (validate_data_volume (key_value k)) _ (validate_data_volume-Raises (key_value k))
      λ volume _. Raises-after (as_items v) _ (as_items-Raises v) λ raw _.
        Raises-after (decode_runtime_entry raw) _ (decode_runtime_entry-Raises raw) λ r _.
          Raises-after (raise_if (not (r.data_volume == volume)) value_error) _
            (Raises-raise_if _ _ tt) λ _ _. Raises-ok _

decode_runtimes-Raises :
    (raw : Items) (rs : Dict ActiveRuntime) → Raises IsCaught (decode_runtimes raw rs)
unfolding decode_runtimes
decode_runtimes-Raises [] rs = Raises-ok rs
decode_runtimes-Raises ((k, v) ∷ raw) rs =
    Raises-after (decode_item k v rs) _ (decode_item-Raises k v rs)
      λ more _. decode_runtimes-Raises raw more

decode_new_state-Raises : (raw : Items) → Raises IsCaught (decode_new_state raw)
unfolding decode_new_state codes elem ◌==◌
decode_new_state-Raises raw =
    Raises-after (raise_if (not (has_fields state_fields raw)) value_error) _
      (Raises-raise_if _ _ tt)
      λ u e.
        let field = field-Raises state_fields raw (eq_of_raise_if _ _ u e) in
        Raises-after (get_item (codes "runtimes") raw) _ (field _ refl) λ v1 _.
          Raises-after (as_items v1) _ (as_items-Raises v1) λ runtimes_raw _.
            Raises-after (raise_if (is_nil runtimes_raw) value_error) _ (Raises-raise_if _ _ tt)
              λ _ _.
                Raises-after (decode_runtimes runtimes_raw []) _
                  (decode_runtimes-Raises runtimes_raw [])
                  λ rs _. Raises-after (get_item (codes "last_active") raw) _ (field _ refl) λ v2 _.
                    Raises-after (validate_data_volume v2) _ (validate_data_volume-Raises v2)
                      λ last _.
                        Raises-after (raise_if (not (is_known (Dict.get last rs))) value_error) _
                          (Raises-raise_if _ _ tt) λ _ _. Raises-ok _

module _ (hexdigest : Text → Text) where
  default_resource_names-Raises : (t : Text) → Raises IsCaught (default_resource_names hexdigest t)
  unfolding default_resource_names
  default_resource_names-Raises t =
      Raises-after (validate_data_volume (str t)) _ (validate_data_volume-Raises (str t))
        λ _ _. Raises-ok _

  decode_old_state-Raises :
      (is_two : Bool) (raw : Items) → Raises IsCaught (decode_old_state hexdigest is_two raw)
  unfolding decode_old_state codes elem ◌==◌
  decode_old_state-Raises is_two raw =
      Raises-after (raise_if (not (has_fields (old_fields is_two) raw)) value_error) _
        (Raises-raise_if _ _ tt)
        λ u e.
          let field = field-Raises (old_fields is_two) raw (eq_of_raise_if _ _ u e) in
          Raises-after (get_item (codes "data_volume") raw) _ (field _ refl) λ v1 _.
            Raises-after (validate_data_volume v1) _ (validate_data_volume-Raises v1) λ volume _.
              Raises-after (default_resource_names hexdigest volume) _
                (default_resource_names-Raises volume)
                λ names _. Raises-after (get_item (codes "image") raw) _ (field _ refl) λ v2 _.
                  Raises-after (non_blank_string v2) _ (non_blank_string-Raises v2) λ _ _.
                    Raises-after (get_item (codes "container_id") raw) _ (field _ refl) λ v3 _.
                      Raises-after (non_blank_string v3) _ (non_blank_string-Raises v3) λ _ _.
                        let container =
                          or_text (get (codes "container_name") raw) names.container in
                        let network = or_text (get (codes "network_name") raw) names.network in
                        Raises-after (docker_name container) _ (docker_name-Raises container) λ _ _.
                          Raises-after (docker_name network) _ (docker_name-Raises network)
                            λ _ _. Raises-ok _

  decode_version-Raises :
      (v : Value) (raw : Items) → Raises IsCaught (decode_version hexdigest v raw)
  unfolding decode_version
  decode_version-Raises v raw =
      Raises-if (equals_int v (pos 1) || equals_int v (pos 2)) _ _
        (decode_old_state-Raises (equals_int v (pos 2)) raw)
        (Raises-if (not (equals_int v active_runtime_schema_version)) (raise value_error) _
          (Raises-raise value_error tt) (decode_new_state-Raises raw))

  -- Every exception of the decoder is one that its callers name.
  pub decode-Raises : (v : Value) → Raises IsCaught (decode_active_state hexdigest v)
  unfolding decode_active_state decode_items
  decode-Raises v = Raises-after (as_items v) (decode_items hexdigest) (as_items-Raises v) λ raw _.
      let version = or_null (get (codes "schema_version") raw) in
      Raises-after (raise_if (not (is_hashable version)) type_error) _ (Raises-raise_if _ _ tt)
        λ _ _. decode_version-Raises version raw
