-- ===== src/Kube/Storage.antt =====
-- Storage classes (`storagev1`) and custom resource definitions (`apiextensionsv1`).
use nfs_provisioner_operator.Base.{String}
use nfs_provisioner_operator.Kube.Meta.{StringMap, ObjectMeta}

pub record StorageClass : Type 0 where
  pub metadata : ObjectMeta
  pub provisioner : String
  pub parameters : StringMap

pub record CustomResourceDefinition : Type 0 where
  pub metadata : ObjectMeta
