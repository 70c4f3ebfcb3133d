-- ===== src/State/Store/Save.antt =====
-- Saving a runtime and loading it again.
use localcloud_cli.Prelude.{
  ◌≡◌, refl, true, not, none, some, Result, ok, raise, [], eq_ℤ, raise_if, host_error,
  invalid_active_runtime, Returns, Returns-ok, Returns-after, Returns-bind, Raises, ok-injective,
  subst, if◌then◌else◌, file_not_found, os_error, unicode_error, value_error,
}
use localcloud_cli.Text.{Text, ◌==◌}
use localcloud_cli.Text.Laws.{==_refl}
use localcloud_cli.Dict
use localcloud_cli.Dict.{Dict}
use localcloud_cli.Dict.Laws.{get-put, get-sorted, put-Distinct, put-All}
use localcloud_cli.Value.{str}
use localcloud_cli.State.{
  ActiveRuntime, active_runtime_schema_version, data_volume_pattern, default_resource_names,
}
use localcloud_cli.State.Naming.{validate_data_volume-valid}
use localcloud_cli.State.Codec.{State, payload}
use localcloud_cli.State.Codec.RoundTrip.{IsRuntime, IsState, IsKeyed, decode-payload}
use localcloud_cli.State.Codec.Errors.{IsCaught, decode-Raises}
use localcloud_cli.State.Codec.Sound.{
  IsTable, decode-IsState, volume-Returns, non_blank_string-Returns, docker_name-Returns,
}
use localcloud_cli.State.Store.{
  File, missing, unreadable, not_utf_8, not_json, too_nested, json, Home, no_faults,
  load_active_runtime, existing_runtimes, checked_runtime, or_name, or_nothing, save_active_runtime,
}

module _ (hexdigest : Text → Text) where
  pub checked_runtime-Returns :
      (r : ActiveRuntime) → Returns IsRuntime (checked_runtime hexdigest r)
  unfolding checked_runtime
  checked_runtime-Returns r =
      Returns-after
        (raise_if (not (eq_ℤ r.schema_version active_runtime_schema_version))
          (host_error invalid_active_runtime))
        _
        λ _ _. Returns-bind _ _ (volume-Returns (str r.data_volume)) λ volume c1.
          Returns-after (default_resource_names hexdigest volume) _ λ names _.
            Returns-bind _ _ (non_blank_string-Returns (str r.image)) λ image c2.
              Returns-bind _ _ (non_blank_string-Returns (str r.container_id)) λ id c3.
                Returns-bind _ _
                  (docker_name-Returns (or_name hexdigest r.container_name names.container))
                  λ container c4.
                    Returns-bind _ _
                      (docker_name-Returns (or_name hexdigest r.network_name names.network))
                      λ network c5. Returns-ok _ (record {
                        schema = refl;
                        volume = c1;
                        image = c2;
                        id = c3;
                        container = record { name = container; given = refl; pattern = c4 };
                        network = record { name = network; given = refl; pattern = c5 };
                      })

  -- A written document loads as the state that was written.
  pub load-payload :
      (rs : Dict ActiveRuntime) (last : Text)
      → IsState (rs, last)
      → (load_active_runtime hexdigest (json (payload rs last)) none ≡ ok (Dict.get last rs, []))
        × ((v : Text)
            → data_volume_pattern v ≡ true
            → load_active_runtime hexdigest (json (payload rs last)) (some v)
              ≡ ok (Dict.get v rs, []))
  unfolding load_active_runtime
  load-payload rs last s = (
    rw (decode-payload hexdigest rs last s, get-sorted),
    λ v h.
        rw (decode-payload hexdigest rs last s)
          (rw (validate_data_volume-valid v h) (rw get-sorted)),
  )

  or_nothing-ok :
      (r : Result State) (rs : Dict ActiveRuntime)
      → Raises IsCaught r
      → or_nothing hexdigest r ≡ ok rs
      → (last : Text) × (r ≡ ok (rs, last))
  or_nothing-ok (ok (runtimes, last)) rs c h = (last, cc)
  or_nothing-ok (raise file_not_found) rs c h = absurd (c.at file_not_found refl)
  or_nothing-ok (raise os_error) rs c h = cc
  or_nothing-ok (raise unicode_error) rs c h = cc
  or_nothing-ok (raise value_error) rs c h = cc
  or_nothing-ok (raise e) rs c h = cc

  -- What `save` finds in the file is a table of checked runtimes.
  pub existing-IsTable :
      (file : File) (rs : Dict ActiveRuntime)
      → existing_runtimes hexdigest file ≡ ok rs
      → IsTable rs
  unfolding existing_runtimes
  existing-IsTable missing rs h = subst IsTable (ok-injective [] rs h) (tt, tt)
  existing-IsTable unreadable rs h = cc
  existing-IsTable not_utf_8 rs h = cc
  existing-IsTable not_json rs h = cc
  existing-IsTable too_nested rs h = cc
  existing-IsTable (json d) rs h =
      let (last, decoded) = or_nothing-ok _ rs (decode-Raises hexdigest d) h in
      let s = decode-IsState hexdigest d (rs, last) decoded in (s.distinct, s.runtimes)

  -- Storing a checked runtime in a table, and making it the last active one.
  pub put-IsState :
      (rs : Dict ActiveRuntime) (r : ActiveRuntime)
      → IsTable rs
      → IsRuntime r
      → IsState (Dict.put r.data_volume r rs, r.data_volume)
  put-IsState rs r (d, h) valid = record {
    distinct = put-Distinct r.data_volume r rs d;
    runtimes = put-All IsKeyed r.data_volume r rs (refl, valid) h;
    last = (r, rw (get-put, ==_refl r.data_volume));
  }

  -- After a save that the system does not hinder, over a file that is absent or valid, the saved
  -- runtime is the active one, a lookup of its data volume gives it, and a lookup of any other data
  -- volume gives what the file held before.
  pub load-save :
      (r selected : ActiveRuntime) (home : Home) (rs : Dict ActiveRuntime)
      → checked_runtime hexdigest r ≡ ok selected
      → existing_runtimes hexdigest home.active ≡ ok rs
      → let (result, after) = save_active_runtime hexdigest no_faults r home in
        (result ≡ ok tt)
        × (load_active_runtime hexdigest after.active none ≡ ok (some selected, []))
        × ((v : Text)
            → data_volume_pattern v ≡ true
            → load_active_runtime hexdigest after.active (some v)
              ≡ ok ((if selected.data_volume == v then some selected else Dict.get v rs), []))
  unfolding save_active_runtime
  load-save r selected home rs checked found =
      let valid = (checked_runtime-Returns r).at selected checked in
      let state = put-IsState rs selected (existing-IsTable home.active rs found) valid in
      let (last, each) = load-payload _ _ state in
      rw (checked, found)
        (
          refl,
          rw last (rw (get-put, ==_refl selected.data_volume)),
          λ v h. rw (each v h) (rw get-put),
        )
