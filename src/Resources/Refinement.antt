-- ===== src/Resources/Refinement.antt =====
-- Each manager implements the specification, with the object that it builds.
use nfs_provisioner_operator.Base.{false, ◌≡◌, refl, is_set, arith}
use nfs_provisioner_operator.Base.Exec.{ok}
use nfs_provisioner_operator.Kube.Meta.{named}
use nfs_provisioner_operator.Api.{NfsProvisioner}
use nfs_provisioner_operator.Defaults
use nfs_provisioner_operator.Cluster.{
  Platform, persistent_volume_claim, service_account, cluster_role, cluster_role_binding, role,
  role_binding, deployment, service, storage_class,
}
use nfs_provisioner_operator.Resources.GetOrCreate.{get_or_create}
use nfs_provisioner_operator.Resources.ServiceAccount
use nfs_provisioner_operator.Resources.StorageClass
use nfs_provisioner_operator.Resources.Service
use nfs_provisioner_operator.Resources.Pvc
use nfs_provisioner_operator.Resources.Deployment
use nfs_provisioner_operator.Resources.Rbac

module _ (P : Platform) (m : NfsProvisioner) where
  pub service_account_refines :
      ServiceAccount.ensure_resource P m
      ≡ get_or_create P service_account
          (named m.metadata.namespace Defaults.service_account)
          (ok (ServiceAccount.build_service_account P m))
  unfolding ServiceAccount.ensure_resource get_or_create
  service_account_refines = refl

  pub storage_class_refines :
      StorageClass.ensure_resource P m
      ≡ get_or_create P storage_class
          (named "" (StorageClass.sc_name m))
          (ok (StorageClass.build_storage_class P m))
  unfolding StorageClass.ensure_resource get_or_create
  storage_class_refines = refl

  pub service_refines :
      Service.ensure_resource P m
      ≡ get_or_create P service
          (named m.metadata.namespace Defaults.service)
          (ok (Service.build_service P m))
  unfolding Service.ensure_resource get_or_create
  service_refines = refl

  pub deployment_refines :
      Deployment.ensure_resource P m
      ≡ get_or_create P deployment
          (named m.metadata.namespace Defaults.deployment)
          (ok (Deployment.build_deployment P m (Deployment.storage_type m)))
  unfolding Deployment.ensure_resource get_or_create
  deployment_refines = refl

  pub cluster_role_refines :
      Rbac.ensure_cluster_role P m
      ≡ get_or_create P cluster_role
          (named "" Defaults.cluster_role)
          (ok (Rbac.build_cluster_role P m))
  unfolding Rbac.ensure_cluster_role get_or_create
  cluster_role_refines = refl

  pub cluster_role_binding_refines :
      Rbac.ensure_cluster_role_binding P m
      ≡ get_or_create P cluster_role_binding
          (named "" Defaults.cluster_role_binding)
          (ok (Rbac.build_cluster_role_binding P m))
  unfolding Rbac.ensure_cluster_role_binding get_or_create
  cluster_role_binding_refines = refl

  pub role_refines :
      Rbac.ensure_role P m
      ≡ get_or_create P role (named m.metadata.namespace Defaults.role) (ok (Rbac.build_role P m))
  unfolding Rbac.ensure_role get_or_create
  role_refines = refl

  pub role_binding_refines :
      Rbac.ensure_role_binding P m
      ≡ get_or_create P role_binding
          (named m.metadata.namespace Defaults.role_binding)
          (ok (Rbac.build_role_binding P m))
  unfolding Rbac.ensure_role_binding get_or_create
  role_binding_refines = refl

  -- With neither a host path nor a claim of the user's, the claim's manager does what the
  -- specification of the managers says: it reads the operator's claim, and creates the one that it
  -- builds if none was found.
  pub pvc_refines :
      is_set m.spec.host_path_dir ≡ false
      → is_set m.spec.pvc ≡ false
      → (s : P.State)
      → Pvc.ensure_resource P m s
        ≡ get_or_create P persistent_volume_claim
            (named m.metadata.namespace Defaults.pvc)
            (Pvc.build_pvc P m)
            s
  unfolding Pvc.ensure_resource get_or_create
  pvc_refines no_path own s = ground arith
