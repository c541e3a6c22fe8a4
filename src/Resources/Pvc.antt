-- ===== src/Resources/Pvc.antt =====
-- controllers/resources/pvc.go
use nfs_provisioner_operator.Base.{String, none, some, [], ◌∷◌, if◌then◌else◌, is_set, not}
use nfs_provisioner_operator.Base.Exec.{
  Outcome, ok, panic, found, failed, ask, call, lift, pure, fail, ◌>>=◌,
}
use nfs_provisioner_operator.Kube.Meta.{zero_meta, named}
use nfs_provisioner_operator.Kube.Core.{PersistentVolumeClaim, read_write_once}
use nfs_provisioner_operator.Api.{NfsProvisioner}
use nfs_provisioner_operator.Defaults
use nfs_provisioner_operator.Cluster.{Platform, persistent_volume_claim}
use nfs_provisioner_operator.Resources.Common.{Method, ResourceManager}

abbrev pub get_resource_name : String
get_resource_name = "PersistentVolumeClaim"

-- The claim's name in `EnsureResource`.
abbrev pub pvc_name : NfsProvisioner → String
pvc_name m = if is_set m.spec.pvc then m.spec.pvc else Defaults.pvc

-- The storage class and the size in `buildPVC`.
abbrev pub pvc_class : NfsProvisioner → String
pvc_class m =
    if is_set m.spec.sc_for_nfs_pvc then m.spec.sc_for_nfs_pvc else Defaults.sc_for_nfs_pvc

abbrev pub pvc_size : NfsProvisioner → String
pvc_size m = if is_set m.spec.storage_size then m.spec.storage_size else Defaults.storage_size

module _ (P : Platform) where
  open P use {Error, is_not_found, get, create, set_controller_reference, parse_quantity}

  -- `resource.MustParse` panics on a size that is no quantity.
  unfoldable pub build_pvc : NfsProvisioner → Outcome Error PersistentVolumeClaim
  build_pvc m = elim (parse_quantity (pvc_size m)) [
    | none ↦ panic
    | some size ↦ ok (record {
      metadata =
          (set_controller_reference m
            (record zero_meta { name = Defaults.pvc; namespace = m.metadata.namespace })).1;
      access_modes = read_write_once ∷ [];
      storage_request = size;
      storage_class_name = some (pvc_class m);
    })
  ]

  unfoldable pub ensure_resource : Method P
  unfolding build_pvc
  ensure_resource m = if is_set m.spec.host_path_dir then pure tt else do
    reply ← ask (get persistent_volume_claim (named m.metadata.namespace (pvc_name m)))
    elim reply [
      | found _ ↦ pure tt
      | failed e ↦
          if is_not_found e
          then if not (is_set m.spec.pvc)
            then (do pvc ← lift (build_pvc m); call (create persistent_volume_claim pvc))
            else fail e
          else fail e
    ]

  abbrev pub new_pvc_manager : ResourceManager P
  new_pvc_manager = record {
    ensure_resource = ensure_resource;
    get_resource_name = get_resource_name;
  }
