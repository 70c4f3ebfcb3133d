-- ===== src/State/Codec/Sound.antt =====
-- Whatever document is read, a decoded state is well formed.
use localcloud_cli.Prelude.{
  is_nil, ◌≡◌, refl, Bool, true, false, not, [], ◌∷◌, Option, none, some, arith, ok, raise,
  raise_if, value_error, type_error, Exception, pos, All, Returns, Returns-ok, Returns-raise,
  Returns-if, Returns-after, Returns-bind, ◌||◌,
}
use localcloud_cli.Text.{Text, codes, ◌==◌}
use localcloud_cli.Text.Laws.{==_refl, ==_iff, strip-strip}
use localcloud_cli.Dict
use localcloud_cli.Dict.{Dict}
use localcloud_cli.Dict.Laws.{Distinct, put-Distinct, put-All}
use localcloud_cli.Value.{
  Value, Key, Items, null, str, or_null, get, get_item, has_fields, equals_int, is_hashable,
}
use localcloud_cli.State.{
  ActiveRuntime, active_runtime_schema_version, data_volume_pattern, docker_name_pattern,
  validate_data_volume, non_blank_string, docker_name, default_resource_names,
}
use localcloud_cli.State.Naming.{validate_data_volume-pattern}
use localcloud_cli.State.Codec.{
  decode_runtime_entry, decode_item, decode_runtimes, decode_new_state, decode_old_state,
  decode_version, decode_active_state, State, as_items, key_value, is_known, entry_fields,
  state_fields, old_fields,
}
use localcloud_cli.State.Codec.RoundTrip.{IsStripped, IsRuntime, IsKeyed, IsState}

pub volume-Returns :
    (v : Value) → Returns (λ t. data_volume_pattern t ≡ true) (validate_data_volume v)
volume-Returns v = record { at = validate_data_volume-pattern v }

non_blank_string-ok : (v : Value) (t : Text) → non_blank_string v ≡ ok t → IsStripped t
unfolding non_blank_string
non_blank_string-ok (str s) t h = record {
  same = ground (arith, strip-strip s);
  filled = ground arith;
}
non_blank_string-ok null t h = cc
non_blank_string-ok _ t h = cc

pub non_blank_string-Returns : (v : Value) → Returns IsStripped (non_blank_string v)
non_blank_string-Returns v = record { at = non_blank_string-ok v }

pub docker_name-Returns : (v : Value) → Returns (λ t. docker_name_pattern t ≡ true) (docker_name v)
unfolding docker_name
docker_name-Returns v =
    Returns-bind _ _ (non_blank_string-Returns v)
      λ t _. Returns-if _ _ _ (λ h. Returns-ok t h) (λ _. Returns-raise _)

decode_runtime_entry-Returns : (raw : Items) → Returns IsRuntime (decode_runtime_entry raw)
unfolding decode_runtime_entry
decode_runtime_entry-Returns raw =
    Returns-after (raise_if (not (has_fields entry_fields raw)) value_error) _ λ _ _.
      Returns-after (get_item (codes "data_volume") raw) _ λ v1 _.
        Returns-bind _ _ (volume-Returns v1) λ volume c1.
          Returns-after (get_item (codes "image") raw) _ λ v2 _.
            Returns-bind _ _ (non_blank_string-Returns v2) λ image c2.
              Returns-after (get_item (codes "container_id") raw) _ λ v3 _.
                Returns-bind _ _ (non_blank_string-Returns v3) λ id c3.
                  Returns-after (get_item (codes "container_name") raw) _ λ v4 _.
                    Returns-bind _ _ (docker_name-Returns v4) λ container c4.
                      Returns-after (get_item (codes "network_name") raw) _ λ v5 _.
                        Returns-bind _ _ (docker_name-Returns v5) λ network c5.
                          Returns-ok _ (record {
                            schema = refl;
                            volume = c1;
                            image = c2;
                            id = c3;
                            container = record { name = container; given = refl; pattern = c4 };
                            network = record { name = network; given = refl; pattern = c5 };
                          })

-- Distinct volumes, each with its own runtime.
abbrev pub IsTable : Dict ActiveRuntime → Type 0
IsTable rs = Distinct rs × All IsKeyed rs

pub eq_of_raise_if :
    (b : Bool) (e : Exception) (u : Unit {0}) → raise_if (not b) e ≡ ok u → b ≡ true
eq_of_raise_if true e u h = refl
eq_of_raise_if false e u h = cc

decode_item-Returns :
    (k : Key) (v : Value) (rs : Dict ActiveRuntime)
    → IsTable rs
    → Returns IsTable (decode_item k v rs)
unfolding decode_item
decode_item-Returns k v rs (d, h) = Returns-bind _ _ (volume-Returns (key_value k)) λ volume _.
    Returns-after (as_items v) _ λ raw _.
      Returns-bind _ _ (decode_runtime_entry-Returns raw) λ r valid.
        Returns-after (raise_if (not (r.data_volume == volume)) value_error) _ λ u same.
          Returns-ok _ (
            put-Distinct volume r rs d,
            put-All IsKeyed volume r rs
                ((==_iff r.data_volume volume).0 (eq_of_raise_if _ _ u same), valid) h,
          )

decode_runtimes-Returns :
    (raw : Items) (rs : Dict ActiveRuntime) → IsTable rs → Returns IsTable (decode_runtimes raw rs)
unfolding decode_runtimes
decode_runtimes-Returns [] rs h = Returns-ok rs h
decode_runtimes-Returns ((k, v) ∷ raw) rs h =
    Returns-bind _ _ (decode_item-Returns k v rs h)
      λ more keyed. decode_runtimes-Returns raw more keyed

some_of_is_known :
    (o : Option ActiveRuntime) → is_known o ≡ true → (r : ActiveRuntime) × (o ≡ some r)
some_of_is_known none h = cc
some_of_is_known (some r) h = (r, refl)

decode_new_state-Returns : (raw : Items) → Returns IsState (decode_new_state raw)
unfolding decode_new_state
decode_new_state-Returns raw =
    Returns-after (raise_if (not (has_fields state_fields raw)) value_error) _ λ _ _.
      Returns-after (get_item (codes "runtimes") raw) _ λ v1 _.
        Returns-after (as_items v1) _ λ runtimes_raw _.
          Returns-after (raise_if (is_nil runtimes_raw) value_error) _ λ _ _.
            Returns-bind _ _ (decode_runtimes-Returns runtimes_raw [] (tt, tt)) λ rs keyed.
              Returns-after (get_item (codes "last_active") raw) _ λ v2 _.
                Returns-after (validate_data_volume v2) _ λ last _.
                  Returns-after (raise_if (not (is_known (Dict.get last rs))) value_error) _
                    λ u known. Returns-ok _ (record {
                      distinct = keyed.0;
                      runtimes = keyed.1;
                      last = some_of_is_known _ (eq_of_raise_if _ _ u known);
                    })

get-single : (k : Text) (r : ActiveRuntime) → Dict.get k ((k, r) ∷ []) ≡ some r
unfolding Dict.get
get-single k r = rw (==_refl k)

module _ (hexdigest : Text → Text) where
  decode_old_state-Returns :
      (is_two : Bool) (raw : Items) → Returns IsState (decode_old_state hexdigest is_two raw)
  unfolding decode_old_state Dict.get
  decode_old_state-Returns is_two raw =
      Returns-after (raise_if (not (has_fields (old_fields is_two) raw)) value_error) _ λ _ _.
        Returns-after (get_item (codes "data_volume") raw) _ λ v1 _.
          Returns-bind _ _ (volume-Returns v1) λ volume c1.
            Returns-after (default_resource_names hexdigest volume) _ λ names _.
              Returns-after (get_item (codes "image") raw) _ λ v2 _.
                Returns-bind _ _ (non_blank_string-Returns v2) λ image c2.
                  Returns-after (get_item (codes "container_id") raw) _ λ v3 _.
                    Returns-bind _ _ (non_blank_string-Returns v3) λ id c3.
                      Returns-bind _ _ (docker_name-Returns _) λ container c4.
                        Returns-bind _ _ (docker_name-Returns _) λ network c5.
                          Returns-ok _ (record {
                            distinct = (refl, tt);
                            runtimes = (
                              (
                                refl,
                                record {
                                  schema = refl;
                                  volume = c1;
                                  image = c2;
                                  id = c3;
                                  container = record {
                                    name = container;
                                    given = refl;
                                    pattern = c4;
                                  };
                                  network = record { name = network; given = refl; pattern = c5 };
                                },
                              ),
                              tt,
                            );
                            last = (_, get-single volume _);
                          })

  decode_version-Returns :
      (v : Value) (raw : Items) → Returns IsState (decode_version hexdigest v raw)
  unfolding decode_version
  decode_version-Returns v raw =
      Returns-if (equals_int v (pos 1) || equals_int v (pos 2)) _ _
        (λ _. decode_old_state-Returns (equals_int v (pos 2)) raw)
        (λ _.
          Returns-if (not (equals_int v active_runtime_schema_version)) (raise value_error) _
            (λ _. Returns-raise value_error) (λ _. decode_new_state-Returns raw))

  -- Whatever the document, a decoded state has distinct and valid volumes, each with its own
  -- checked runtime, and its last active volume is one of them.
  pub decode-IsState : (v : Value) (s : State) → decode_active_state hexdigest v ≡ ok s → IsState s
  unfolding decode_active_state
  decode-IsState v s h =
      (Returns-after (as_items v) _ λ raw _.
          Returns-after
            (raise_if (not (is_hashable (or_null (get (codes "schema_version") raw)))) type_error) _
            λ _ _. decode_version-Returns (or_null (get (codes "schema_version") raw)) raw).at
        s h
