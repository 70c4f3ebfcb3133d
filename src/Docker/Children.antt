-- ===== src/Docker/Children.antt =====
-- The children of a runtime in docker_runtime.py: `_owned_children` and `_remove_children`.
use localcloud_cli.Prelude.{
  is_nil, Bool, true, false, not, ◌&&◌, ◌||◌, List, [], ◌∷◌, ◌++◌, Option, none, some, keep_if, any,
  all, if◌then◌else◌,
}
use localcloud_cli.Text.{Text, codes, ◌==◌, elem}
use localcloud_cli.Dict
use localcloud_cli.Docker.Labels.{
  Labels, Ownership, managed, managed_label, instance_label, config_hash_label, volume_name_label,
  child_managed_label, child_service_label, is_text, is_filled, has_label, or_empty, matches,
}
use localcloud_cli.Docker.Store.{
  Container, Daemon, Faults, Cleanup, remove_verified, delete_container,
}
use localcloud_cli.Docker.Resolve.{RuntimeRecord}

abbrev pub is_managed : Ownership → Bool
is_managed managed = true
is_managed owner = false

-- The children of a runtime of an older release have its instance and its configuration hash.
unfoldable pub is_legacy_child : RuntimeRecord → Labels → Bool
unfolding Dict.get
is_legacy_child r labels =
    let instance = Dict.get instance_label r.labels in
    let hash = Dict.get config_hash_label r.labels in
    is_managed r.container_owner
    && is_filled instance
    && is_filled hash
    && is_text (or_empty instance) (Dict.get instance_label labels)
    && is_text (or_empty hash) (Dict.get config_hash_label labels)

unfoldable pub is_new_child : Text → Labels → Bool
unfolding Dict.get
is_new_child data_volume labels = is_text data_volume (Dict.get volume_name_label labels)

abbrev pub is_served : Option (List Text) → Option Text → Bool
is_served none service = true
is_served (some services) none = false
is_served (some services) (some service) = elem service services

-- The labels that a child must have to be removed.
unfoldable pub expected_child : RuntimeRecord → Text → Labels → Labels
unfolding Dict.get is_legacy_child is_new_child has_label
expected_child r data_volume labels =
    (managed_label, codes "true")
      ∷ (child_managed_label, codes "true")
      ∷ (if is_legacy_child r labels
          then (config_hash_label, or_empty (Dict.get config_hash_label r.labels))
            ∷ (instance_label, or_empty (Dict.get instance_label r.labels))
            ∷ []
          else if has_label labels config_hash_label
          then (config_hash_label, or_empty (Dict.get config_hash_label labels)) ∷ []
          else [])
    ++ (if is_new_child data_volume labels then (volume_name_label, data_volume) ∷ [] else [])

-- A container that claims to be a child: the daemon lists those with the label of a child.
unfoldable pub is_child : RuntimeRecord → Text → Text → Option (List Text) → Container → Bool
unfolding Dict.get is_legacy_child is_new_child elem
is_child r data_volume parent services c =
    is_text (codes "true") (Dict.get child_managed_label c.labels)
    && not (c.id == parent)
    && is_served services (Dict.get child_service_label c.labels)
    && (is_new_child data_volume c.labels || is_legacy_child r c.labels)

abbrev pub identities : List Container → List Text
identities [] = []
identities (c ∷ cs) = c.id ∷ identities cs

abbrev pub only_if {ℓ} : {A : Type ℓ} → Bool → List A → List A
only_if true xs = xs
only_if false xs = []

-- The labels of a record under some keys.
unfoldable pub put_labels : Labels → List Text → Labels → Labels
unfolding Dict.get Dict.put
put_labels labels [] expected = expected
put_labels labels (k ∷ ks) expected =
    put_labels labels ks (Dict.put k (or_empty (Dict.get k labels)) expected)

-- `_owned_children`: none where one of them has other labels than its claim asks for.
unfoldable pub owned_children :
    Faults → RuntimeRecord → Text → Text → Option (List Text) → Cleanup → List Text × List Container
unfolding is_child keep_if matches expected_child any all
owned_children f r data_volume parent services (failures, d) =
    let children = keep_if (is_child r data_volume parent services) d.containers in
    let wrong =
      keep_if (λ (c : Container). not (matches c.labels (expected_child r data_volume c.labels)))
        children in
    if f.list_children
    then (failures ++ data_volume ∷ [], [])
    else (failures ++ identities wrong, only_if (is_nil (failures ++ identities wrong)) children)

-- `_remove_children`
unfoldable pub remove_each : Faults → RuntimeRecord → Text → List Container → Cleanup → Cleanup
unfolding remove_verified expected_child delete_container
remove_each f r data_volume [] o = o
remove_each f r data_volume (c ∷ cs) o = remove_each f r data_volume cs (
    remove_verified f c.id c.labels (expected_child r data_volume c.labels) (delete_container c.id)
      o)

abbrev pub removed_children :
    Faults → RuntimeRecord → Text → List Text × List Container → Daemon → Cleanup
removed_children f r data_volume (failures, children) d =
    remove_each f r data_volume children (failures, d)

unfoldable pub remove_children :
    Faults → RuntimeRecord → Text → Option (List Text) → Daemon → Cleanup
unfolding owned_children remove_each
remove_children f r data_volume services d =
    removed_children f r data_volume
      (owned_children f r data_volume r.container_id services ([], d)) d
