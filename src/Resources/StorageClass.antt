-- ===== src/Resources/StorageClass.antt =====
-- controllers/resources/storageclass.go
use nfs_provisioner_operator.Base.{String, some, [], ◌∷◌, if◌then◌else◌, is_set}
use nfs_provisioner_operator.Base.Exec.{found, failed, ask, call, pure, fail, ◌>>=◌}
use nfs_provisioner_operator.Kube.Meta.{zero_meta, named}
use nfs_provisioner_operator.Kube.Storage.{StorageClass}
use nfs_provisioner_operator.Api.{NfsProvisioner}
use nfs_provisioner_operator.Defaults
use nfs_provisioner_operator.Cluster.{Platform, storage_class}
use nfs_provisioner_operator.Resources.Common.{Method, ResourceManager}

abbrev pub get_resource_name : String
get_resource_name = "StorageClass"

-- The first lines of `EnsureResource` and of `buildStorageClass`, which are the same.
abbrev pub sc_name : NfsProvisioner → String
sc_name m =
    if is_set m.spec.sc_for_nfs_provisioner
    then m.spec.sc_for_nfs_provisioner
    else Defaults.sc_for_nfs_provisioner

module _ (P : Platform) where
  open P use {is_not_found, get, create, set_controller_reference}

  unfoldable pub build_storage_class : NfsProvisioner → StorageClass
  build_storage_class m = record {
    metadata = (set_controller_reference m (record zero_meta { name = sc_name m })).1;
    provisioner = "example.com/nfs";
    parameters = some (("mountOptions", "vers=4.1") ∷ []);
  }

  unfoldable pub ensure_resource : Method P
  ensure_resource m = do
    reply ← ask (get storage_class (named "" (sc_name m)))
    elim reply [
      | found _ ↦ pure tt
      | failed e ↦
          if is_not_found e then call (create storage_class (build_storage_class m)) else fail e
    ]

  abbrev pub new_storage_class_manager : ResourceManager P
  new_storage_class_manager = record {
    ensure_resource = ensure_resource;
    get_resource_name = get_resource_name;
  }
