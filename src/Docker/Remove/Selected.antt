-- ===== src/Docker/Remove/Selected.antt =====
-- The container that a change is made to.
use mathlib.Core.List.{Memᴰ}
use localcloud_cli.Prelude.{
  ◌≡◌, refl, sym, subst, ◌∙◌, Bool, true, false, not, ◌||◌, List, [], ◌∷◌, Option, none, some,
  keep_if, any, arith, ok, raise_if, ok-injective, Returns, Returns-ok, Returns-after, Returns-bind,
  Returns-if, Returns-raise, Returns-raise_if,
}
use localcloud_cli.Text.{Text, codes, ◌==◌, is_empty}
use localcloud_cli.Dict
use localcloud_cli.Value.{str}
use localcloud_cli.State.{validate_data_volume}
use localcloud_cli.Docker.Labels.{
  Labels, container, volume, Ownership, attached, managed, managed_label, volume_name_label,
  role_label, role_name, is_text, classify_resource, is_legacy_volume, has_label, lacks_metadata,
  management_labels,
}
use localcloud_cli.Docker.Store.{Container, Resource, Daemon, Faults, named_resource, get_optional}
use localcloud_cli.Docker.Resolve.{
  Target, RuntimeRecord, Readers, resolve, resolved, record_of, require_volume,
  validated_data_mount, is_of, find_network, network_ownership, container_network, required,
  mutation_target, uses,
}
use localcloud_cli.Docker.Remove.Own.{IsManaged, IsOfVolume}
use localcloud_cli.Docker.Remove.Removed.{Memᴰ-keep_if, is_text-same}

pub not-false : (b : Bool) → not b ≡ false → b ≡ true
not-false b h = ground arith

-- A container that is classified as managed is of the data volume.
abbrev IsClassified : Text → Labels → Ownership → Type 0
IsClassified data_volume labels owner =
    owner ≡ managed → IsManaged labels × (Dict.get volume_name_label labels ≡ some data_volume)

classified :
    (allow : Bool) (data_volume name : Text) (labels : Labels)
    → Returns
        (IsClassified data_volume labels)
        (classify_resource allow container data_volume name labels)
unfolding classify_resource is_legacy_volume
classified allow data_volume name labels =
    Returns-if (not (any (has_label labels) management_labels)) _ _
      (λ h. Returns-ok attached (λ e. cc))
      λ claimed.
        Returns-bind _ _
          (Returns-raise_if (not (is_text (codes "true") (Dict.get managed_label labels))) _)
          λ u own.
            Returns-bind _ _
              (Returns-raise_if (not (is_text (role_name container) (Dict.get role_label labels)))
                _)
              λ u1 role.
                Returns-bind _ _
                  (Returns-raise_if (not (is_text data_volume (Dict.get volume_name_label labels)))
                    _)
                  λ u2 bound.
                    Returns-bind _ _ (Returns-raise_if (lacks_metadata container labels) _)
                      λ u3 full. Returns-ok managed λ e. (
                        is_text-same (codes "true") _ (not-false _ own),
                        is_text-same data_volume _ (not-false _ bound),
                      )

-- What a record says of the container that it was made of.
pub record IsRecord (data_volume : Text) (cs : List Container) (r : RuntimeRecord) : Type 0 where
  pub from : Container
  pub there : Memᴰ from cs
  pub id : r.container_id ≡ from.id
  pub labels : r.labels ≡ from.labels
  pub owner : r.container_owner ≡ managed → IsOfVolume data_volume from
  pub volume : r.data_volume ≡ data_volume

abbrev pub IsFound : Text → List Container → Option RuntimeRecord → Type 0
IsFound data_volume cs none = Unit
IsFound data_volume cs (some r) = IsRecord data_volume cs r

module _ (w : Readers) (f : Faults) (d : Daemon) where
  record_of-IsRecord :
      (t : Target) (found : Option Resource) (c : Container)
      → Memᴰ c d.containers
      → Returns (IsRecord t.data_volume d.containers) (record_of w f d t found c)
  unfolding record_of
  record_of-IsRecord t found c m = Returns-after (require_volume w f d found) _ λ v e1.
      Returns-after (validated_data_mount (keep_if (is_of t.data_volume) c.mounts)) _ λ mount e2.
        Returns-bind (classify_resource false container t.data_volume c.name c.labels) _
          (classified false t.data_volume c.name c.labels)
          λ owner own. Returns-after (w.compatible_image c owner) _ λ u e3.
            Returns-after (container_network w t c owner) _ λ name e4.
              Returns-after (find_network w f d name) _ λ n e5.
                Returns-after (network_ownership t.data_volume owner n) _ λ network_owner e6.
                  Returns-after (classify_resource true volume t.data_volume v.name v.labels) _
                    λ volume_owner e7. Returns-ok _ (record {
                      from = c;
                      there = m;
                      id = refl;
                      labels = refl;
                      owner = own;
                      volume = refl;
                    })

  resolved-IsFound :
      (t : Target) (found : Option Resource) (cs : List Container)
      → ((c : Container) → Memᴰ c cs → Memᴰ c d.containers)
      → Returns (IsFound t.data_volume d.containers) (resolved w f d t found cs)
  resolved-IsFound t found [] sub = Returns-ok none tt
  resolved-IsFound t found (c ∷ []) sub =
      Returns-bind (record_of w f d t found c) _
        (record_of-IsRecord t found c (sub c (Memᴰ.head refl))) λ r h. Returns-ok (some r) h
  resolved-IsFound t found (c ∷ e ∷ cs) sub = Returns-raise _

  resolve-IsFound :
      (t : Target)
      → validate_data_volume (str t.data_volume) ≡ ok t.data_volume
      → Returns (IsFound t.data_volume d.containers) (resolve w f d t)
  unfolding resolve
  resolve-IsFound t valid =
      Returns-after (validate_data_volume (str t.data_volume)) _ λ data_volume e1.
        let users = keep_if (uses data_volume) d.containers in
        Returns-after (get_optional f data_volume (named_resource data_volume d.volumes)) _
          λ found e2. Returns-after (raise_if f.list _) _ λ u e3.
            Returns-after (raise_if (any (λ (c : Container). f.reload c.id) users) _) _ λ u1 e4.
              subst
                (λ v.
                  Returns (IsFound v d.containers)
                    (resolved w f d (record t { data_volume = data_volume }) found users))
                (ok-injective data_volume t.data_volume (sym e1 ∙ valid))
                (resolved-IsFound (record t { data_volume = data_volume }) found users
                  λ c m. (Memᴰ-keep_if (uses data_volume) c d.containers m).0)

  required-IsRecord :
      (data_volume : Text) (o : Option RuntimeRecord)
      → IsFound data_volume d.containers o
      → Returns (IsRecord data_volume d.containers) (required w f d o)
  required-IsRecord data_volume none h = Returns-raise _
  required-IsRecord data_volume (some r) h = Returns-ok r h

  -- What is to be changed is a container of the daemon, and one that is managed is of the data
  -- volume.
  pub mutation_target-IsRecord :
      (t : Target) (id : Text)
      → validate_data_volume (str t.data_volume) ≡ ok t.data_volume
      → Returns (IsRecord t.data_volume d.containers) (mutation_target w f d t id)
  unfolding mutation_target
  mutation_target-IsRecord t id valid = Returns-after (raise_if (is_empty id) _) _ λ u e1.
      Returns-after
        (raise_if (f.inspect id || not (any (λ (c : Container). c.id == id) d.containers)) _) _
        λ u1 e2. Returns-bind (resolve w f d t) _ (resolve-IsFound t valid) λ found h.
          Returns-bind (required w f d found) _ (required-IsRecord t.data_volume found h)
            λ r k. Returns-after (raise_if (not (r.container_id == id)) _) _ λ u2 e3. Returns-ok r k
