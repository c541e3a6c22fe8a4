-- ===== src/Resources/Refs.antt =====
-- The objects that the managers write, each with its name, and what has to be in the cluster.
use nfs_provisioner_operator.Base.{if◌then◌else◌, is_set}
use nfs_provisioner_operator.Kube.Meta.{named}
use nfs_provisioner_operator.Api.{NfsProvisioner}
use nfs_provisioner_operator.Defaults
use nfs_provisioner_operator.Cluster.{
  persistent_volume_claim, service_account, cluster_role, cluster_role_binding, role, role_binding,
  deployment, service, storage_class,
}
use nfs_provisioner_operator.Cluster.Laws.{View}
use nfs_provisioner_operator.Cluster.Growth.{Ref, Present}
use nfs_provisioner_operator.Resources.StorageClass
use nfs_provisioner_operator.Resources.Pvc

abbrev pub cluster_role_ref : Ref
cluster_role_ref = (cluster_role, named "" Defaults.cluster_role)

abbrev pub cluster_role_binding_ref : Ref
cluster_role_binding_ref = (cluster_role_binding, named "" Defaults.cluster_role_binding)

-- The objects that the managers write, each with its name.
module _ (m : NfsProvisioner) where
  abbrev pub pvc_ref : Ref
  pvc_ref = (persistent_volume_claim, named m.metadata.namespace Defaults.pvc)

  abbrev pub service_account_ref : Ref
  service_account_ref = (service_account, named m.metadata.namespace Defaults.service_account)

  abbrev pub role_ref : Ref
  role_ref = (role, named m.metadata.namespace Defaults.role)

  abbrev pub role_binding_ref : Ref
  role_binding_ref = (role_binding, named m.metadata.namespace Defaults.role_binding)

  abbrev pub deployment_ref : Ref
  deployment_ref = (deployment, named m.metadata.namespace Defaults.deployment)

  abbrev pub service_ref : Ref
  service_ref = (service, named m.metadata.namespace Defaults.service)

  abbrev pub storage_class_ref : Ref
  storage_class_ref = (storage_class, named "" (StorageClass.sc_name m))

  -- The claim that the deployment is to use: none with a host path, and else the user's or the
  -- operator's.
  abbrev pub ClaimReady : View → Type 0
  ClaimReady v =
      if is_set m.spec.host_path_dir
      then Unit {0}
      else Present v (persistent_volume_claim, named m.metadata.namespace (Pvc.pvc_name m))

  -- The four objects of access control.
  abbrev pub AccessReady : View → Type 0
  AccessReady v =
      Present v cluster_role_ref
      × (Present v cluster_role_binding_ref × (Present v role_ref × Present v role_binding_ref))
