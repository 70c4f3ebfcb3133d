-- ===== src/State/Codec/RoundTrip.antt =====
-- What `save` writes is what `load` reads: decoding the written document gives the sorted state back.
use localcloud_cli.Prelude.{
  is_nil, ◌≡◌, refl, ap, true, false, [], ◌∷◌, ◌++◌, Option, none, some, ok, subst, sym, All, ◌∙◌,
}
use localcloud_cli.Text.{Text, codes, strip, ◌==◌, is_empty}
use localcloud_cli.Text.Laws.{==_iff}
use localcloud_cli.Dict
use localcloud_cli.Dict.{Dict}
use mathlib.Core.List.{append-nil, append_assoc}
use localcloud_cli.Dict.Laws.{
  Distinct, put-new, get-Distinct, get-All, sorted-All, sorted-Distinct, get-sorted,
}
use localcloud_cli.Value.{str, dict, items, named}
use localcloud_cli.State.{
  ActiveRuntime, active_runtime_schema_version, data_volume_pattern, docker_name_pattern,
  non_blank_string, docker_name,
}
use localcloud_cli.State.Naming.{validate_data_volume-valid, strip-docker_name}
use localcloud_cli.State.Codec.{
  decode_runtime_entry, decode_item, decode_runtimes, decode_active_state, runtime_entries,
  runtimes_entries, payload, State,
}

-- A text that a field check leaves as it is.
pub record IsStripped (t : Text) : Type 0 where
  pub same : strip t ≡ t
  pub filled : is_empty t ≡ false

pub record IsName (o : Option Text) : Type 0 where
  pub name : Text
  pub given : o ≡ some name
  pub pattern : docker_name_pattern name ≡ true

-- A runtime record as the checks leave it.
pub record IsRuntime (r : ActiveRuntime) : Type 0 where
  pub schema : r.schema_version ≡ active_runtime_schema_version
  pub volume : data_volume_pattern r.data_volume ≡ true
  pub image : IsStripped r.image
  pub id : IsStripped r.container_id
  pub container : IsName r.container_name
  pub network : IsName r.network_name

pub non_blank_string-IsStripped : (t : Text) → IsStripped t → non_blank_string (str t) ≡ ok t
unfolding non_blank_string
non_blank_string-IsStripped t h = rw (h.same, h.filled)

filled-docker_name : (t : Text) → docker_name_pattern t ≡ true → is_empty t ≡ false
unfolding docker_name_pattern
filled-docker_name [] h = cc
filled-docker_name (c ∷ t) h = refl

pub docker_name-pattern : (t : Text) → docker_name_pattern t ≡ true → docker_name (str t) ≡ ok t
unfolding docker_name
docker_name-pattern t h = rw (strip-docker_name t h, filled-docker_name t h, h)

-- The record with the given fields.
abbrev pub runtime : (volume image id container network : Text) → ActiveRuntime
runtime volume image id container network = record {
  schema_version = active_runtime_schema_version;
  data_volume = volume;
  image = image;
  container_id = id;
  container_name = some container;
  network_name = some network;
}

decode-runtime :
    (volume image id container network : Text)
    → data_volume_pattern volume ≡ true
    → IsStripped image
    → IsStripped id
    → docker_name_pattern container ≡ true
    → docker_name_pattern network ≡ true
    → decode_runtime_entry (items (runtime_entries (runtime volume image id container network)))
      ≡ ok (runtime volume image id container network)
unfolding decode_runtime_entry runtime_entries codes ◌==◌
decode-runtime volume image id container network v i d c n =
    rw (validate_data_volume-valid volume v) (
      rw (non_blank_string-IsStripped image i) (
        rw (non_blank_string-IsStripped id d)
          (rw (docker_name-pattern container c) (rw (docker_name-pattern network n)))))

decode-runtime_entries :
    (r : ActiveRuntime) → IsRuntime r → decode_runtime_entry (items (runtime_entries r)) ≡ ok r
decode-runtime_entries r h =
    let known = runtime r.data_volume r.image r.container_id h.container.name h.network.name in
    let same : known ≡ r = λ i. record {
      schema_version = sym h.schema i;
      data_volume = r.data_volume;
      image = r.image;
      container_id = r.container_id;
      container_name = sym h.container.given i;
      network_name = sym h.network.given i;
    } in
    subst (λ x. decode_runtime_entry (items (runtime_entries x)) ≡ ok x) same
      (decode-runtime _ _ _ _ _ h.volume h.image h.id h.container.pattern h.network.pattern)

-- A decoded state: each runtime stands under its own data volume, no volume stands twice.
abbrev pub IsKeyed : Text × ActiveRuntime → Type 0
IsKeyed (k, r) = (r.data_volume ≡ k) × IsRuntime r

pub record IsState (s : State) : Type 0 where
  pub distinct : Distinct s.0
  pub runtimes : All IsKeyed s.0
  pub last : (r : ActiveRuntime) × (Dict.get s.1 s.0 ≡ some r)

decode-item :
    (k : Text) (r : ActiveRuntime) (before : Dict ActiveRuntime)
    → r.data_volume ≡ k
    → IsRuntime r
    → Dict.get k before ≡ none
    → decode_item (named k) (dict (runtime_entries r)) before ≡ ok (before ++ (k, r) ∷ [])
unfolding decode_item
decode-item k r before same h new =
    rw (validate_data_volume-valid k (subst (λ t. data_volume_pattern t ≡ true) same h.volume)) (
      rw (decode-runtime_entries r h)
        (rw ((==_iff r.data_volume k).1 same) (ap ok (put-new k r before new))))

-- The loop over the written runtimes rebuilds them behind those that are there.
decode-runtimes_entries :
    (before rs : Dict ActiveRuntime)
    → Distinct (before ++ rs)
    → All IsKeyed rs
    → decode_runtimes (items (runtimes_entries rs)) before ≡ ok (before ++ rs)
unfolding decode_runtimes runtimes_entries
decode-runtimes_entries before [] d h = rw append-nil
decode-runtimes_entries before ((k, r) ∷ rs) d ((same, h), hs) =
    let shift : (before ++ (k, r) ∷ []) ++ rs ≡ before ++ (k, r) ∷ rs = rw append_assoc in
    rw (decode-item k r before same h (get-Distinct k r before rs d)) (
      decode-runtimes_entries (before ++ (k, r) ∷ []) rs (subst Distinct (sym shift) d) hs
      ∙ ap ok shift)

filled-runtimes_entries :
    (k : Text) (r : ActiveRuntime) (rs : Dict ActiveRuntime)
    → Dict.get k rs ≡ some r
    → is_nil (items (runtimes_entries rs)) ≡ false
unfolding runtimes_entries Dict.get
filled-runtimes_entries k r [] h = cc
filled-runtimes_entries k r ((j, w) ∷ rs) h = refl

-- The document that is written for a well-formed state decodes to that state, its runtimes sorted.
pub decode-payload :
    (hexdigest : Text → Text) (rs : Dict ActiveRuntime) (last : Text)
    → IsState (rs, last)
    → decode_active_state hexdigest (payload rs last) ≡ ok (Dict.sorted rs, last)
unfolding decode_active_state payload codes ◌==◌
decode-payload hexdigest rs last s =
    let (r, found) = s.last in
    let listed : Dict.get last (Dict.sorted rs) ≡ some r = rw get-sorted found in
    let (same, h) = get-All IsKeyed last r rs s.runtimes found in
    rw (filled-runtimes_entries last r (Dict.sorted rs) listed) (
      rw
        (decode-runtimes_entries [] (Dict.sorted rs) (sorted-Distinct rs s.distinct)
          (sorted-All IsKeyed rs s.runtimes))
        (rw
          (validate_data_volume-valid last
            (subst (λ t. data_volume_pattern t ≡ true) same h.volume))
          (rw listed)))
