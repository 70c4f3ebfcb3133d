-- ===== src/State/Codec/Migration.antt =====
-- A document of the first schema is read as one runtime under the default names.
use localcloud_cli.Prelude.{
  ◌≡◌, refl, subst, Bool-cases, inl, inr, true, false, not, List, all, [], ◌∷◌, pos, negsuc, Option,
  raise_if, type_error, ◌>>◌, ok, and-eq-true, arith, none, some, ◌∙◌,
}
use localcloud_cli.Text.{Text, codes, ◌==◌, elem, strip, is_empty}
use localcloud_cli.Text.Laws.{==_iff}
use localcloud_cli.Value.{
  Value, null, bool, int, float, list, other, str, dict, Entries, Items, Key, named, unnamed, items,
  get, has_fields, is_one_of, equals_int, is_hashable, or_null,
}
use localcloud_cli.State.{data_volume_pattern, base_name, validate_data_volume, non_blank_string}
use localcloud_cli.State.Naming.{is_hex, default_resource_names-valid, base_name-pattern}
use localcloud_cli.State.Codec.{decode_active_state, decode_old_state, decode_version, old_fields}
use localcloud_cli.State.Codec.RoundTrip.{runtime, docker_name-pattern}

-- The document of one runtime: its four fields in any order and no others, a version that equals 1
-- (`true` and 1.0 do), and texts that are filled, with blanks round them or without.
pub record IsFirstSchema (raw : Items) (name picture key : Text) : Type 0 where
  pub fields : has_fields (old_fields false) raw ≡ true
  pub given_version : Value
  pub schema_version : get (codes "schema_version") raw ≡ some given_version
  pub is_one : equals_int given_version (pos 1) ≡ true
  pub data_volume : get (codes "data_volume") raw ≡ some (str name)
  pub image : get (codes "image") raw ≡ some (str picture)
  pub container_id : get (codes "container_id") raw ≡ some (str key)
  pub volume_pattern : data_volume_pattern (strip name) ≡ true
  pub image_filled : is_empty (strip picture) ≡ false
  pub id_filled : is_empty (strip key) ≡ false

one-apart : (s k : Text) (fields : List Text) → s ≡ k → elem s fields ≡ true → elem k fields ≡ true
one-apart s k fields same h = subst (λ t. elem t fields ≡ true) same h

-- A key that is not among the fields is not there.
get-unlisted :
    (fields : List Text) (k : Text) (es : Items)
    → all (λ (e : Key × Value). is_one_of fields e.0) es ≡ true
    → elem k fields ≡ false
    → get k es ≡ none
unfolding get all
get-unlisted fields k [] h new = refl
get-unlisted fields k ((unnamed s, v) ∷ es) h new = cc
get-unlisted fields k ((named s, v) ∷ es) h new =
    let (here, rest) = and-eq-true _ _ h in
    elim (Bool-cases (s == k)) [
      | inl same ↦ (let there = one-apart s k fields ((==_iff s k).0 same) here in cc)
      | inr apart ↦ rw apart (get-unlisted fields k es rest new)
    ]

one-IsHashable : (v : Value) → equals_int v (pos 1) ≡ true → is_hashable v ≡ true
unfolding equals_int is_hashable
one-IsHashable null h = cc
one-IsHashable (bool b) h = refl
one-IsHashable (int n) h = refl
one-IsHashable (float t n) h = refl
one-IsHashable (str t) h = cc
one-IsHashable (other t) h = cc
one-IsHashable (list vs) h = cc
one-IsHashable (dict es) h = cc

one-two : (v : Value) → equals_int v (pos 1) ≡ true → equals_int v (pos 2) ≡ false
unfolding equals_int
one-two null h = cc
one-two (bool true) h = refl
one-two (bool false) h = cc
one-two (int (pos n)) h = ground arith
one-two (int (negsuc n)) h = cc
one-two (float t none) h = cc
one-two (float t (some (pos n))) h = ground arith
one-two (float t (some (negsuc n))) h = cc
one-two (str t) h = cc
one-two (other t) h = cc
one-two (list vs) h = cc
one-two (dict es) h = cc

unlisted :
    (k : Text) (raw : Items)
    → has_fields (old_fields false) raw ≡ true
    → elem k (old_fields false) ≡ false
    → get k raw ≡ none
unfolding has_fields
unlisted k raw h new = get-unlisted (old_fields false) k raw (and-eq-true _ _ h).0 new

no_names :
    (elem (codes "container_name") (old_fields false) ≡ false)
    × (elem (codes "network_name") (old_fields false) ≡ false)
unfolding elem codes ◌==◌
no_names = (refl, refl)

validate_data_volume-strip :
    (t : Text) → data_volume_pattern (strip t) ≡ true → validate_data_volume (str t) ≡ ok (strip t)
unfolding validate_data_volume
validate_data_volume-strip t h = rw h refl

non_blank_string-strip :
    (t : Text) → is_empty (strip t) ≡ false → non_blank_string (str t) ≡ ok (strip t)
unfolding non_blank_string
non_blank_string-strip t h = rw h refl

module _ (hexdigest : Text → Text) (hex : (t : Text) → all is_hex (hexdigest t) ≡ true) where
  decode_old_state-first :
      (raw : Items) (volume image id : Text)
      → IsFirstSchema raw volume image id
      → let name = base_name hexdigest (strip volume) in
        decode_old_state hexdigest false raw
        ≡ ok (
          (strip volume, runtime (strip volume) (strip image) (strip id) name name) ∷ [],
          strip volume,
        )
  unfolding decode_old_state
  decode_old_state-first raw volume image id s =
      let name = docker_name-pattern _ (base_name-pattern hexdigest hex (strip volume)) in
      rw
        (
          s.fields,
          s.data_volume,
          validate_data_volume-strip volume s.volume_pattern,
          default_resource_names-valid hexdigest hex (strip volume) s.volume_pattern,
          s.image,
          non_blank_string-strip image s.image_filled,
          s.container_id,
          non_blank_string-strip id s.id_filled,
          unlisted (codes "container_name") raw s.fields no_names.0,
          unlisted (codes "network_name") raw s.fields no_names.1,
          name,
        )
        refl

  decode_version-first :
      (v : Value) (raw : Items)
      → equals_int v (pos 1) ≡ true
      → decode_version hexdigest v raw ≡ decode_old_state hexdigest false raw
  unfolding decode_version
  decode_version-first v raw h = rw (h, one-two v h) refl

  known_version :
      (o : Option Value) (v : Value) (raw : Items)
      → o ≡ some v
      → equals_int v (pos 1) ≡ true
      → (raise_if (not (is_hashable (or_null o))) type_error
          >> decode_version hexdigest (or_null o) raw)
        ≡ decode_old_state hexdigest false raw
  known_version o v raw given h = rw (given, one-IsHashable v h) (decode_version-first v raw h)

  -- Every document of schema 1 whose fields are valid, in any order, decodes to the runtime that it
  -- names, the only and the active one, with the blanks round its texts cut off and with the default
  -- container and network names of its data volume.
  pub decode-first_schema :
      (es : Entries) (volume image id : Text)
      → IsFirstSchema (items es) volume image id
      → let name = base_name hexdigest (strip volume) in
        decode_active_state hexdigest (dict es)
        ≡ ok (
          (strip volume, runtime (strip volume) (strip image) (strip id) name name) ∷ [],
          strip volume,
        )
  unfolding decode_active_state
  decode-first_schema es volume image id s =
      known_version (get (codes "schema_version") (items es)) s.given_version (items es)
        s.schema_version s.is_one
      ∙ decode_old_state-first (items es) volume image id s
