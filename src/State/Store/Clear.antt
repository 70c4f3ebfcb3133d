-- ===== src/State/Store/Clear.antt =====
-- Clearing one data volume, or all of them.
use localcloud_cli.Prelude.{
  is_nil, ◌≡◌, refl, ap, sym, subst, true, false, Bool-cases, inl, inr, Option, none, some, arith,
  ok, [], ◌∷◌, if◌then◌else◌, ◌∙◌,
}
use localcloud_cli.Text.{Text, ◌==◌}
use localcloud_cli.Text.Laws.{==_refl, ==_comm, ==_iff}
use localcloud_cli.Dict
use localcloud_cli.Dict.{Dict}
use localcloud_cli.Dict.Laws.{get-remove, remove-Distinct, remove-All}
use localcloud_cli.Value.{Value}
use localcloud_cli.State.{ActiveRuntime, data_volume_pattern}
use localcloud_cli.State.Naming.{validate_data_volume-valid}
use localcloud_cli.State.Codec.{State, decode_active_state}
use localcloud_cli.State.Codec.RoundTrip.{IsState, IsKeyed}
use localcloud_cli.State.Codec.Sound.{decode-IsState}
use localcloud_cli.State.Store.{
  json, Home, no_faults, load_active_runtime, clear_active_runtime, first_key, write_without,
  clear_found,
}
use localcloud_cli.State.Store.Save.{load-payload}

module _ (hexdigest : Text → Text) where
  -- The last active volume after `selected` is removed.
  abbrev pub new_last : Text → State → Text
  new_last selected (rs, last) =
      if last == selected then first_key hexdigest (Dict.remove selected rs) last else last

  get-first_key :
      (rs : Dict ActiveRuntime) (last : Text)
      → is_nil rs ≡ false
      → (r : ActiveRuntime) × (Dict.get (first_key hexdigest rs last) rs ≡ some r)
  unfolding Dict.get
  get-first_key [] last h = cc
  get-first_key ((k, r) ∷ rs) last h = (r, rw (==_refl k))

  -- What is left of a valid state is valid, if it is not empty.
  pub remove-IsState :
      (v : Text) (s : State)
      → IsState s
      → is_nil (Dict.remove v s.0) ≡ false
      → IsState (Dict.remove v s.0, new_last v s)
  remove-IsState v (rs, last) s filled = record {
    distinct = remove-Distinct v rs s.distinct;
    runtimes = remove-All IsKeyed v rs s.runtimes;
    last = elim (Bool-cases (last == v)) [
      | inl same ↦ rw same (get-first_key (Dict.remove v rs) last filled)
      | inr other ↦
          rw other
            (s.last.0, rw (get-remove v last rs s.distinct) (rw (==_comm v last, other) s.last.1))
    ];
  }

  get_of_nil : (rs : Dict ActiveRuntime) (u : Text) → is_nil rs ≡ true → Dict.get u rs ≡ none
  unfolding Dict.get
  get_of_nil [] u h = refl
  get_of_nil (e ∷ rs) u h = cc

  -- What a lookup finds after `del runtimes[v]` and the write, or the removal of the file.
  load-write_without :
      (v u : Text) (s : State) (home : Home)
      → IsState s
      → data_volume_pattern u ≡ true
      → load_active_runtime hexdigest (write_without hexdigest no_faults v s home).1.active (some u)
        ≡ ok (Dict.get u (Dict.remove v s.0), [])
  unfolding write_without load_active_runtime
  load-write_without v u (rs, last) home s h = elim (Bool-cases (is_nil (Dict.remove v rs))) [
    | inl empty ↦ rw empty (rw (get_of_nil (Dict.remove v rs) u empty))
    | inr filled ↦
        rw filled ((load-payload hexdigest _ _ (remove-IsState v (rs, last) s filled)).1 u h)
  ]

  -- A valid file, looked up at one volume.
  load-decoded :
      (d : Value) (s : State) (u : Text)
      → decode_active_state hexdigest d ≡ ok s
      → data_volume_pattern u ≡ true
      → load_active_runtime hexdigest (json d) (some u) ≡ ok (Dict.get u s.0, [])
  unfolding load_active_runtime
  load-decoded d s u decoded h = rw (decoded, validate_data_volume-valid u h)

  get_of_absent :
      (v u : Text) (rs : Dict ActiveRuntime)
      → Dict.get v rs ≡ none
      → Dict.get u rs ≡ (if v == u then none else Dict.get u rs)
  get_of_absent v u rs absent = ground (arith, ==_iff v u)

  load-clear_found :
      (v u : Text) (d : Value) (s : State) (home : Home) (o : Option ActiveRuntime)
      → home.active ≡ json d
      → decode_active_state hexdigest d ≡ ok s
      → data_volume_pattern u ≡ true
      → Dict.get v s.0 ≡ o
      → load_active_runtime hexdigest (clear_found hexdigest no_faults v s o home).1.active (some u)
        ≡ ok ((if v == u then none else Dict.get u s.0), [])
  load-clear_found v u d s home none file decoded h absent =
      subst
        (λ x.
          load_active_runtime hexdigest x (some u)
          ≡ ok ((if v == u then none else Dict.get u s.0), []))
        (sym file)
        (load-decoded d s u decoded h ∙ ap (λ x. ok (x, [])) (get_of_absent v u s.0 absent))
  load-clear_found v u d s home (some r) file decoded h present =
      let state = decode-IsState hexdigest d s decoded in
      load-write_without v u s home state h ∙ rw (get-remove v u s.0 state.distinct)

  -- After a clear of one data volume that the system does not hinder, over a valid file, a lookup of
  -- that volume finds nothing, and a lookup of any other volume finds what it found before.
  pub load-clear :
      (v : Text) (d : Value) (home : Home) (s : State)
      → home.active ≡ json d
      → decode_active_state hexdigest d ≡ ok s
      → data_volume_pattern v ≡ true
      → (u : Text) → data_volume_pattern u ≡ true
      → load_active_runtime hexdigest
          (clear_active_runtime hexdigest no_faults (some v) home).1.active
          (some u)
        ≡ ok ((if v == u then none else Dict.get u s.0), [])
  unfolding clear_active_runtime load_active_runtime
  load-clear v d home s file decoded valid u h =
      simp (file, decoded, validate_data_volume-valid v valid)
        (load-clear_found v u d s home (Dict.get v s.0) file decoded h refl)
