-- ===== src/State/Store/Invariant.antt =====
-- The state file stays valid through any sequence of saves and clears, whatever the system refuses.
use localcloud_cli.Prelude.{
  is_nil, ◌≡◌, ◌⊎◌, inl, inr, refl, sym, subst, Bool-cases, Option, none, some, Result, ok, raise,
  [], Option-cases, ◌>>=◌, type_error, file_not_found, key_error, runtime_error, recursion_error,
  Returns, Returns-after, ◌↔◌,
}
use localcloud_cli.Text.{Text}
use localcloud_cli.Dict
use localcloud_cli.Dict.{Dict}
use localcloud_cli.Value.{Value, str}
use localcloud_cli.State.{ActiveRuntime, validate_data_volume}
use localcloud_cli.State.Codec.{State, decode_active_state, payload}
use localcloud_cli.State.Codec.RoundTrip.{IsState, IsRuntime, decode-payload}
use localcloud_cli.State.Codec.Sound.{decode-IsState}
use localcloud_cli.State.Store.{
  File, missing, json, Home, Faults, load_active_runtime, save_active_runtime, save_checked,
  then_write, clear_active_runtime, write_without, clear_found, clear_selected, clear_read,
  clear_locked, existing_runtimes, write_active_state_file, unlink_active, file_lock,
  checked_runtime, read_json,
}
use localcloud_cli.State.Store.Effects.{write-IsAtomic}
use localcloud_cli.State.Store.Save.{existing-IsTable, put-IsState, checked_runtime-Returns}
use localcloud_cli.State.Store.Clear.{remove-IsState}

module _ (hexdigest : Text → Text) where
  -- The file is absent, or a document that decodes.
  abbrev pub IsSound : File → Type 0
  IsSound file =
      (file ≡ missing)
      ⊎ ((d : Value) × (s : State) × (file ≡ json d) × (decode_active_state hexdigest d ≡ ok s))

  payload-IsSound :
      (rs : Dict ActiveRuntime) (last : Text)
      → IsState (rs, last)
      → IsSound (json (payload rs last))
  payload-IsSound rs last s =
      inr (payload rs last, (Dict.sorted rs, last), refl, decode-payload hexdigest rs last s)

  write-IsSound :
      (f : Faults) (rs : Dict ActiveRuntime) (last : Text) (home : Home)
      → IsState (rs, last)
      → IsSound home.active
      → IsSound (write_active_state_file f (payload rs last) home).1.active
  write-IsSound f rs last home s h = elim (write-IsAtomic f (payload rs last) home).whole [
    | inl same ↦ subst IsSound (sym same) h
    | inr new ↦ subst IsSound (sym new) (payload-IsSound rs last s)
  ]

  unlink-IsSound :
      (f : Faults) (home : Home) → IsSound home.active → IsSound (unlink_active f home).1.active
  unfolding unlink_active
  unlink-IsSound f home h = elim (Bool-cases f.unlink_active) [
    | inl stuck ↦ rw stuck h
    | inr gone ↦ rw gone (inl refl)
  ]

  -- A body that keeps the file sound does so under the lock, taken or not.
  file_lock-IsSound :
      {A : Type 0} (f : Faults) (body : Home → Result A × Home) (home : Home)
      → IsSound home.active
      → IsSound (body home).1.active
      → IsSound (file_lock f body home).1.active
  unfolding file_lock
  file_lock-IsSound f body home h k = elim (Bool-cases f.lock_file) [
    | inl failed ↦ rw failed h
    | inr made ↦ elim (Bool-cases f.flock) [
      | inl failed ↦ rw (made, failed) h
      | inr taken ↦ rw (made, taken) k
    ]
  ]

  then_write-IsSound :
      (f : Faults) (selected : ActiveRuntime) (home : Home) (r : Result (Dict ActiveRuntime))
      → IsRuntime selected
      → IsSound home.active
      → existing_runtimes hexdigest home.active ≡ r
      → IsSound (then_write hexdigest f selected r home).1.active
  then_write-IsSound f selected home (raise e) valid h found = h
  then_write-IsSound f selected home (ok rs) valid h found =
      write-IsSound f _ selected.data_volume home
        (put-IsState hexdigest rs selected (existing-IsTable hexdigest home.active rs found) valid)
        h

  save_checked-IsSound :
      (f : Faults) (r : ActiveRuntime) (home : Home) (c : Result ActiveRuntime)
      → checked_runtime hexdigest r ≡ c
      → IsSound home.active
      → IsSound (save_checked hexdigest f c home).1.active
  unfolding save_checked
  save_checked-IsSound f r home (raise e) checked h = h
  save_checked-IsSound f r home (ok selected) checked h =
      let valid = (checked_runtime-Returns hexdigest r).at selected checked in
      file_lock-IsSound f
        (λ x. then_write hexdigest f selected (existing_runtimes hexdigest x.active) x) home h
        (then_write-IsSound f selected home (existing_runtimes hexdigest home.active) valid h refl)

  save-IsSound :
      (f : Faults) (r : ActiveRuntime) (home : Home)
      → IsSound home.active
      → IsSound (save_active_runtime hexdigest f r home).1.active
  unfolding save_active_runtime
  save-IsSound f r home h = save_checked-IsSound f r home _ refl h

  write_without-IsSound :
      (f : Faults) (v : Text) (s : State) (home : Home)
      → IsState s
      → IsSound home.active
      → IsSound (write_without hexdigest f v s home).1.active
  unfolding write_without
  write_without-IsSound f v (rs, last) home s h = elim (Bool-cases (is_nil (Dict.remove v rs))) [
    | inl empty ↦ rw empty (unlink-IsSound f home h)
    | inr filled ↦
        rw filled (write-IsSound f _ _ home (remove-IsState hexdigest v (rs, last) s filled) h)
  ]

  clear_selected-IsSound :
      (f : Faults) (s : State) (v : Result Text) (home : Home)
      → IsState s
      → IsSound home.active
      → IsSound (clear_selected hexdigest f s v home).1.active
  clear_selected-IsSound f s (raise e) home state h = h
  clear_selected-IsSound f s (ok v) home state h = elim (Option-cases (Dict.get v s.0)) [
    | inl absent ↦ rw (absent, clear_found) h
    | inr (r, present) ↦ rw (present, clear_found) (write_without-IsSound f v s home state h)
  ]

  clear_read-IsSound :
      (f : Faults) (v : Text) (r : Result State) (home : Home)
      → Returns IsState r
      → IsSound home.active
      → IsSound (clear_read hexdigest f v r home).1.active
  clear_read-IsSound f v (ok s) home state h =
      clear_selected-IsSound f s (validate_data_volume (str v)) home (state.at s refl) h
  clear_read-IsSound f v (raise file_not_found) home state h = h
  clear_read-IsSound f v (raise type_error) home state h = h
  clear_read-IsSound f v (raise key_error) home state h = h
  clear_read-IsSound f v (raise runtime_error) home state h = h
  clear_read-IsSound f v (raise recursion_error) home state h = h
  clear_read-IsSound f v (raise e) home state h = unlink-IsSound f home h

  clear_locked-IsSound :
      (f : Faults) (v : Option Text) (home : Home)
      → IsSound home.active
      → IsSound (clear_locked hexdigest f v home).1.active
  clear_locked-IsSound f none home h = unlink-IsSound f home h
  clear_locked-IsSound f (some v) home h =
      clear_read-IsSound f v (read_json home.active >>= decode_active_state hexdigest) home
        (Returns-after (read_json home.active) _ λ d _. record { at = decode-IsState hexdigest d })
        h

  clear-IsSound :
      (f : Faults) (v : Option Text) (home : Home)
      → IsSound home.active
      → IsSound (clear_active_runtime hexdigest f v home).1.active
  unfolding clear_active_runtime
  clear-IsSound f v home h =
      file_lock-IsSound f (clear_locked hexdigest f v) home h (clear_locked-IsSound f v home h)

  -- One call of the program on the state file, with whatever the system refuses in it.
  pub data Step (home : Home) : Home → Type 0 where
    save : (f : Faults) (r : ActiveRuntime) → Step home (save_active_runtime hexdigest f r home).1
    clear : (f : Faults) (v : Option Text) → Step home (clear_active_runtime hexdigest f v home).1

  pub data Reach (home : Home) : Home → Type 0 where
    here : Reach home home
    next : {g h : Home} → Reach home g → Step g h → Reach home h

  Step-IsSound : {g h : Home} → Step g h → IsSound g.active → IsSound h.active
  Step-IsSound {g} (save f r) s = save-IsSound f r g s
  Step-IsSound {g} (clear f v) s = clear-IsSound f v g s

  pub Reach-IsSound : {g h : Home} → Reach g h → IsSound g.active → IsSound h.active
  Reach-IsSound here s = s
  Reach-IsSound (next r st) s = Step-IsSound st (Reach-IsSound r s)

  load-IsSound :
      (file : File)
      → IsSound file
      → (o : Option ActiveRuntime) × (load_active_runtime hexdigest file none ≡ ok (o, []))
        × ((o ≡ none) ↔ (file ≡ missing))
  unfolding load_active_runtime
  load-IsSound file (inl absent) = (none, rw absent, ((λ _. absent), λ _. refl))
  load-IsSound file (inr (d, (rs, last), found, decoded)) =
      let (r, active) = (decode-IsState hexdigest d (rs, last) decoded).last in
      (some r, simp (found, decoded, active), ((λ e. cc), λ e. cc found))

  -- Whatever calls were made and whatever failed in them, from an absent or valid file: loading
  -- records no diagnostic, and finds a runtime exactly when there is a file.
  pub load-Reach :
      (g h : Home)
      → Reach g h
      → IsSound g.active
      → (o : Option ActiveRuntime) × (load_active_runtime hexdigest h.active none ≡ ok (o, []))
        × ((o ≡ none) ↔ (h.active ≡ missing))
  load-Reach g h r s = load-IsSound h.active (Reach-IsSound r s)
