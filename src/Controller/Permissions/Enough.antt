-- ===== src/Controller/Permissions/Enough.antt =====
-- The markers ask for all that a run calls, but for the read of a definition.
use nfs_provisioner_operator.Base.{◌∷◌, ◌≡◌, refl}
use nfs_provisioner_operator.Base.Exec.{ok}
use nfs_provisioner_operator.Api.{NfsProvisioner}
use nfs_provisioner_operator.Kube.Meta.{NamespacedName}
use nfs_provisioner_operator.Cluster.{Platform}
use nfs_provisioner_operator.Resources.Manager.{ensure_all_resources, ensure_each}
use nfs_provisioner_operator.Resources.Scc
use nfs_provisioner_operator.Resources.Scc.{is_scc_crd_available}
use nfs_provisioner_operator.Resources.Pvc
use nfs_provisioner_operator.Resources.ServiceAccount
use nfs_provisioner_operator.Resources.Rbac
use nfs_provisioner_operator.Resources.Deployment
use nfs_provisioner_operator.Resources.Service
use nfs_provisioner_operator.Resources.StorageClass
use nfs_provisioner_operator.Controller.Reconcile.{
  reconcile, reconcile_valid, register, finalize, report_invalid,
}
use nfs_provisioner_operator.Controller.Cleanup.{delete_external_resources, delete_if_found}
use nfs_provisioner_operator.Controller.Steps.{run}
use nfs_provisioner_operator.Controller.Permissions.{markers, definitions_marker, guard}

-- With a client that answers every call outside the permissions that the markers ask for with an
-- error and does nothing, but lets definitions of custom resources be read, each run has the same
-- outcome and the same state as with the client itself, whatever that client does: the markers ask
-- for every other call that a run makes, the writes of the status included.
pub reconcile_permitted :
    (P : Platform) (forbidden : P.Error) (req : NamespacedName) (s : P.State)
    → run (guard (definitions_marker ∷ markers) P forbidden) req s ≡ run P req s
unfolding reconcile reconcile_valid register finalize report_invalid delete_external_resources
    delete_if_found ensure_all_resources ensure_each is_scc_crd_available Scc.ensure_resource
    Scc.add_user Scc.build_scc Pvc.ensure_resource Pvc.build_pvc ServiceAccount.ensure_resource
    ServiceAccount.build_service_account Rbac.ensure_resource Rbac.ensure_cluster_role
    Rbac.ensure_cluster_role_binding Rbac.ensure_role Rbac.ensure_role_binding
    Rbac.build_cluster_role Rbac.build_cluster_role_binding Rbac.build_role Rbac.build_role_binding
    Deployment.ensure_resource Service.ensure_resource StorageClass.ensure_resource
    Deployment.build_deployment Service.build_service StorageClass.build_storage_class
reconcile_permitted P forbidden req s = refl

pub ensure_resource_denied :
    (P : Platform) (forbidden : P.Error) (m : NfsProvisioner) (s : P.State)
    → Scc.ensure_resource (guard markers P forbidden) m s ≡ (ok tt, s)
unfolding Scc.ensure_resource is_scc_crd_available
ensure_resource_denied P forbidden m s = refl
