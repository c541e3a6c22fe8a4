-- ===== src/Resources/Origin/Managers.antt =====
-- Each manager but that of the constraints makes only objects that the operator builds.
use nfs_provisioner_operator.Base.{◌≡◌, ap, fun_ext, is_set, Bool-cases, inl, inr, refl, subst}
use nfs_provisioner_operator.Base.Exec.{Exec, ok, ok_injective}
use nfs_provisioner_operator.Kube.Meta.{NamespacedName}
use nfs_provisioner_operator.Api.{NfsProvisioner}
use nfs_provisioner_operator.Cluster.{Kind, Object, Platform}
use nfs_provisioner_operator.Cluster.Laws.{IsLawful, HasHelpers, key}
use nfs_provisioner_operator.Resources.GetOrCreate.{get_or_create}
use nfs_provisioner_operator.Resources.Refinement.{
  service_account_refines, storage_class_refines, service_refines, deployment_refines,
  cluster_role_refines, cluster_role_binding_refines, role_refines, role_binding_refines,
  pvc_refines,
}
use nfs_provisioner_operator.Resources.Promises.{key-owned, pvc_idle, pvc_reads, key-build_pvc}
use nfs_provisioner_operator.Resources.ServiceAccount
use nfs_provisioner_operator.Resources.StorageClass
use nfs_provisioner_operator.Resources.Service
use nfs_provisioner_operator.Resources.Pvc
use nfs_provisioner_operator.Resources.Deployment
use nfs_provisioner_operator.Resources.Rbac
use nfs_provisioner_operator.Resources.All.{ensure_rest}
use nfs_provisioner_operator.Resources.Manager.{ensure_each}
use nfs_provisioner_operator.Resources.Origin.{
  Built, Builds, Builds-pure, Builds-same, Builds-then, Builds-read, Builds-get_or_create,
}

module _ (P : Platform) (L : IsLawful P) (H : HasHelpers P) (m : NfsProvisioner) where
  open P use {State, Error}

  Builds-Built :
      (k : Kind) (n : NamespacedName) (o : Object k) (x : Exec State Error (Unit {0}))
      → x ≡ get_or_create P k n (ok o)
      → key k o ≡ n
      → Built P m k o
      → Builds P m L x
  Builds-Built k n o x e named_n built = Builds-same P m L x _ e (
      Builds-get_or_create P m L k n (ok o)
        (λ b same. subst (λ c. key k c ≡ n) (ok_injective o b same) named_n)
        (λ b same. subst (Built P m k) (ok_injective o b same) built))

  Builds-service_account : Builds P m L (ServiceAccount.ensure_resource P m)
  unfolding ServiceAccount.build_service_account
  Builds-service_account =
      Builds-Built _ _ _ _ (service_account_refines P m) (key-owned P H m _) refl

  Builds-storage_class : Builds P m L (StorageClass.ensure_resource P m)
  unfolding StorageClass.build_storage_class
  Builds-storage_class = Builds-Built _ _ _ _ (storage_class_refines P m) (key-owned P H m _) refl

  Builds-service : Builds P m L (Service.ensure_resource P m)
  unfolding Service.build_service
  Builds-service = Builds-Built _ _ _ _ (service_refines P m) (key-owned P H m _) refl

  Builds-deployment : Builds P m L (Deployment.ensure_resource P m)
  unfolding Deployment.build_deployment
  Builds-deployment = Builds-Built _ _ _ _ (deployment_refines P m) (key-owned P H m _) refl

  Builds-cluster_role : Builds P m L (Rbac.ensure_cluster_role P m)
  unfolding Rbac.build_cluster_role
  Builds-cluster_role = Builds-Built _ _ _ _ (cluster_role_refines P m) (key-owned P H m _) refl

  Builds-cluster_role_binding : Builds P m L (Rbac.ensure_cluster_role_binding P m)
  unfolding Rbac.build_cluster_role_binding
  Builds-cluster_role_binding =
      Builds-Built _ _ _ _ (cluster_role_binding_refines P m) (key-owned P H m _) refl

  Builds-role : Builds P m L (Rbac.ensure_role P m)
  unfolding Rbac.build_role
  Builds-role = Builds-Built _ _ _ _ (role_refines P m) (key-owned P H m _) refl

  Builds-role_binding : Builds P m L (Rbac.ensure_role_binding P m)
  unfolding Rbac.build_role_binding
  Builds-role_binding = Builds-Built _ _ _ _ (role_binding_refines P m) (key-owned P H m _) refl

  Builds-rbac : Builds P m L (Rbac.ensure_resource P m)
  unfolding Rbac.ensure_resource
  Builds-rbac = Builds-then P m L _ _ Builds-cluster_role (
      Builds-then P m L _ _ Builds-cluster_role_binding
        (Builds-then P m L _ _ Builds-role Builds-role_binding))

  Builds-pvc : Builds P m L (Pvc.ensure_resource P m)
  Builds-pvc = elim (Bool-cases (is_set m.spec.host_path_dir)) [
    | inl p ↦ Builds-read P m L _ (λ s. ap L.view (pvc_idle P L H m p s))
    | inr p ↦ elim (Bool-cases (is_set m.spec.pvc)) [
      | inl q ↦ Builds-read P m L _ (λ s. rw (pvc_reads P L H m p q s) (L.view-get _ _ s))
      | inr q ↦
          Builds-same P m L _ _ (fun_ext (pvc_refines P m p q))
            (Builds-get_or_create P m L _ _ _ (key-build_pvc P L H m) (λ o e. e))
    ]
  ]

  -- All managers after the first.
  pub Builds-rest : Builds P m L (ensure_rest P m)
  unfolding ensure_each
  Builds-rest = Builds-then P m L _ _ Builds-pvc (
      Builds-then P m L _ _ Builds-service_account (
        Builds-then P m L _ _ Builds-rbac (
          Builds-then P m L _ _ Builds-deployment (
            Builds-then P m L _ _ Builds-service
              (Builds-then P m L _ _ Builds-storage_class (Builds-pure P m L))))))
