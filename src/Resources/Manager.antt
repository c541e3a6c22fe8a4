-- ===== src/Resources/Manager.antt =====
-- controllers/resources/manager.go
use nfs_provisioner_operator.Base.{String, List, [], ◌∷◌}
use nfs_provisioner_operator.Base.Exec.{pure, ◌>>◌}
use nfs_provisioner_operator.Cluster.{Platform}
use nfs_provisioner_operator.Resources.Common.{Method, ResourceManager}
use nfs_provisioner_operator.Resources.Scc.{new_scc_manager}
use nfs_provisioner_operator.Resources.Pvc.{new_pvc_manager}
use nfs_provisioner_operator.Resources.ServiceAccount.{new_service_account_manager}
use nfs_provisioner_operator.Resources.Rbac.{new_rbac_manager}
use nfs_provisioner_operator.Resources.Deployment.{new_deployment_manager}
use nfs_provisioner_operator.Resources.Service.{new_service_manager}
use nfs_provisioner_operator.Resources.StorageClass.{new_storage_class_manager}

pub record ResourceManagerSet (P : Platform) : Type 0 where
  pub scc : ResourceManager P
  pub pvc : ResourceManager P
  pub service_account : ResourceManager P
  pub rbac : ResourceManager P
  pub deployment : ResourceManager P
  pub service : ResourceManager P
  pub storage_class : ResourceManager P

module _ (P : Platform) where
  abbrev pub new_resource_manager_set : ResourceManagerSet P
  new_resource_manager_set = record {
    scc = new_scc_manager P;
    pvc = new_pvc_manager P;
    service_account = new_service_account_manager P;
    rbac = new_rbac_manager P;
    deployment = new_deployment_manager P;
    service = new_service_manager P;
    storage_class = new_storage_class_manager P;
  }

  -- The list of managers in `EnsureAllResources`.
  abbrev pub managers : ResourceManagerSet P → List (ResourceManager P)
  managers r =
      r.scc ∷ r.pvc ∷ r.service_account ∷ r.rbac ∷ r.deployment ∷ r.service ∷ r.storage_class ∷ []

  -- The loop over them.
  unfoldable pub ensure_each : List (ResourceManager P) → Method P
  ensure_each [] m = pure tt
  ensure_each (manager ∷ rest) m = do manager.ensure_resource m; ensure_each rest m

  unfoldable pub ensure_all_resources : ResourceManagerSet P → Method P
  unfolding ensure_each
  ensure_all_resources r m = ensure_each (managers r) m

  unfoldable get_managed_resource_names : ResourceManagerSet P → List String
  get_managed_resource_names r =
      r.scc.get_resource_name ∷ r.pvc.get_resource_name ∷ r.service_account.get_resource_name
      ∷ r.rbac.get_resource_name ∷ r.deployment.get_resource_name ∷ r.service.get_resource_name
      ∷ r.storage_class.get_resource_name ∷ []
