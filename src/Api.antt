-- ===== src/Api.antt =====
-- api/v1alpha1/nfsprovisioner_types.go: the custom resource that the operator reconciles. The type
-- meta (`apiVersion`, `kind`) is the same for all and is left out.
use nfs_provisioner_operator.Base.{String, Option, List}
use nfs_provisioner_operator.Kube.Meta.{StringMap, ObjectMeta}

pub record ImageConfiguration : Type 0 where
  pub image : Option String
  pub image_pull_policy : Option String

pub record NfsProvisionerSpec : Type 0 where
  pub host_path_dir : String
  pub pvc : String
  pub storage_size : String
  pub sc_for_nfs_pvc : String
  pub node_selector : StringMap
  pub sc_for_nfs_provisioner : String
  pub nfs_image_configuration : Option ImageConfiguration

-- `nodes` is `none` where the slice is nil.
pub record NfsProvisionerStatus : Type 0 where
  pub nodes : Option (List String)
  pub error : String

pub record NfsProvisioner : Type 0 where
  pub metadata : ObjectMeta
  pub spec : NfsProvisionerSpec
  pub status : NfsProvisionerStatus
