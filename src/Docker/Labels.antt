-- ===== src/Docker/Labels.antt =====
-- The ownership labels of docker_runtime.py and what they say of a resource.
use localcloud_cli.Prelude.{
  Bool, true, false, not, ◌&&◌, List, [], ◌∷◌, Option, none, some, any, all, if◌then◌else◌,
  Exception, Result, ok, raise_if, ◌>>◌, host_error, ownership_mismatch,
}
use localcloud_cli.Text.{Text, codes, ◌==◌, is_empty}
use localcloud_cli.Dict
use localcloud_cli.Dict.{Dict}

abbrev pub managed_label : Text
managed_label = codes "com.localcloud.managed"

abbrev pub instance_label : Text
instance_label = codes "com.localcloud.instance"

abbrev pub role_label : Text
role_label = codes "com.localcloud.resource-role"

abbrev pub config_hash_label : Text
config_hash_label = codes "com.localcloud.config-hash"

abbrev pub config_path_label : Text
config_path_label = codes "com.localcloud.config-path"

abbrev pub config_label : Text
config_label = codes "com.localcloud.config"

abbrev pub network_name_label : Text
network_name_label = codes "com.localcloud.network-name"

abbrev pub volume_name_label : Text
volume_name_label = codes "com.localcloud.volume-name"

abbrev pub data_label : Text
data_label = codes "com.localcloud.data"

abbrev pub child_managed_label : Text
child_managed_label = codes "localcloud.managed"

abbrev pub child_service_label : Text
child_service_label = codes "com.localcloud.service"

abbrev pub container_metadata_labels : List Text
container_metadata_labels =
    config_hash_label ∷ config_path_label ∷ config_label ∷ network_name_label ∷ volume_name_label
    ∷ data_label ∷ []

abbrev pub management_labels : List Text
management_labels = managed_label ∷ instance_label ∷ role_label ∷ container_metadata_labels

pub data Role : Type 0 where
  container network volume : Role

abbrev pub role_name : Role → Text
role_name container = codes "container"
role_name network = codes "network"
role_name volume = codes "volume"

pub data Ownership : Type 0 where
  attached managed missing : Ownership

abbrev pub Labels : Type 0
Labels = Dict Text

abbrev pub is_text : Text → Option Text → Bool
is_text t none = false
is_text t (some s) = s == t

abbrev pub is_present : Option Text → Bool
is_present none = false
is_present (some t) = true

-- A text that is there and not empty.
abbrev pub is_filled : Option Text → Bool
is_filled none = false
is_filled (some t) = not (is_empty t)

unfoldable pub has_label : Labels → Text → Bool
unfolding Dict.get
has_label labels key = is_present (Dict.get key labels)

abbrev pub mismatch : Exception
mismatch = host_error ownership_mismatch

-- A volume of an older release, known by its instance and its name.
unfoldable pub is_legacy_volume : Bool → Role → Text → Text → Labels → Bool
unfolding Dict.get has_label
is_legacy_volume allowed volume data_volume name labels =
    allowed
    && not (has_label labels volume_name_label)
    && is_filled (Dict.get instance_label labels)
    && name == data_volume
is_legacy_volume allowed role data_volume name labels = false

abbrev pub is_bound : Role → Bool
is_bound network = false
is_bound role = true

abbrev pub lacks_metadata : Role → Labels → Bool
lacks_metadata container labels = not (all (has_label labels) container_metadata_labels)
lacks_metadata role labels = false

-- `_classify_resource`
unfoldable pub classify_resource : Bool → Role → Text → Text → Labels → Result Ownership
unfolding has_label any all Dict.get is_legacy_volume
classify_resource allow_legacy role data_volume name labels =
    if not (any (has_label labels) management_labels) then ok attached else (do
      raise_if (not (is_text (codes "true") (Dict.get managed_label labels))) mismatch
      raise_if (not (is_text (role_name role) (Dict.get role_label labels))) mismatch
      raise_if
          (is_bound role
            && not (is_legacy_volume allow_legacy role data_volume name labels)
            && not (is_text data_volume (Dict.get volume_name_label labels)))
          mismatch
      raise_if (lacks_metadata role labels) mismatch
      ok managed)

-- `_base_labels` of a checked data volume
abbrev pub base_labels : Text → Role → Labels
base_labels data_volume role =
    (managed_label, codes "true")
    ∷ (role_label, role_name role)
    ∷ (volume_name_label, data_volume)
    ∷ []

abbrev pub or_empty : Option Text → Text
or_empty none = []
or_empty (some t) = t

-- `_removal_base_labels`
unfoldable pub removal_base_labels : Labels → Role → Text → Labels
unfolding Dict.get has_label
removal_base_labels labels volume data_volume =
    let instance = Dict.get instance_label labels in
    if not (has_label labels volume_name_label) && is_filled instance
    then (managed_label, codes "true")
      ∷ (role_label, codes "volume")
      ∷ (instance_label, or_empty instance)
      ∷ []
    else base_labels data_volume volume
removal_base_labels labels network data_volume =
    (managed_label, codes "true") ∷ (role_label, codes "network") ∷ []
removal_base_labels labels container data_volume = base_labels data_volume container

-- Whether `_label_mismatches` is empty.
unfoldable pub matches : Labels → Labels → Bool
unfolding all Dict.get
matches actual expected = all (λ (e : Text × Text). is_text e.1 (Dict.get e.0 actual)) expected
