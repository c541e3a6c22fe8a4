-- ===== src/Resources/Ownership.antt =====
-- Which of the objects that the managers build are owned by the custom resource.
use nfs_provisioner_operator.Base.{
  true, List, [], ◌∷◌, ◌≡◌, refl, sym, ◌∙◌, is_set, is_set→ne, arith,
}
use nfs_provisioner_operator.Base.Lists.{All}
use nfs_provisioner_operator.Base.Exec.{ok}
use nfs_provisioner_operator.Kube.Meta.{ObjectMeta, zero_meta}
use nfs_provisioner_operator.Kube.Core.{PersistentVolumeClaim}
use nfs_provisioner_operator.Defaults
use nfs_provisioner_operator.Api.{NfsProvisioner}
use nfs_provisioner_operator.Cluster.{Platform}
use nfs_provisioner_operator.Cluster.Laws.{HasHelpers, controller_of}
use nfs_provisioner_operator.Resources.ServiceAccount
use nfs_provisioner_operator.Resources.StorageClass
use nfs_provisioner_operator.Resources.Service
use nfs_provisioner_operator.Resources.Pvc
use nfs_provisioner_operator.Resources.Scc
use nfs_provisioner_operator.Resources.Deployment
use nfs_provisioner_operator.Resources.Rbac

module _ (P : Platform) (m : NfsProvisioner) where
  -- The metadata of the objects in the resource's namespace, but for the claim.
  abbrev pub namespaced : List ObjectMeta
  namespaced =
      (ServiceAccount.build_service_account P m).metadata
      ∷ (Rbac.build_role P m).metadata
      ∷ (Rbac.build_role_binding P m).metadata
      ∷ (Deployment.build_deployment P m (Deployment.storage_type m)).metadata
      ∷ (Service.build_service P m).metadata
      ∷ []

  -- And of those in no namespace.
  abbrev pub cluster_scoped : List ObjectMeta
  cluster_scoped =
      (Scc.build_scc P m).metadata
      ∷ (Rbac.build_cluster_role P m).metadata
      ∷ (Rbac.build_cluster_role_binding P m).metadata
      ∷ (StorageClass.build_storage_class P m).metadata
      ∷ []

  module _ (H : HasHelpers P) where
    -- The service account, the role, its binding, the deployment and the service that the operator
    -- builds have the resource as their one owner and controller.
    pub builders-owned : All (λ o. o.owner_references ≡ controller_of m ∷ []) namespaced
    unfolding ServiceAccount.build_service_account Rbac.build_role Rbac.build_role_binding
        Deployment.build_deployment Service.build_service
    builders-owned = (
      same _ refl refl,
      (same _ refl refl, (same _ refl refl, (same _ refl refl, (same _ refl refl, tt)))),
    )
      where
        same :
            (o : ObjectMeta)
            → o.namespace ≡ m.metadata.namespace
            → o.owner_references ≡ []
            → (P.set_controller_reference m o).1.owner_references ≡ controller_of m ∷ []
        same o = H.same_namespace m o

    -- If the claim can be built, it has the resource as its one owner and controller.
    pub build_pvc-owned :
        (pvc : PersistentVolumeClaim)
        → Pvc.build_pvc P m ≡ ok pvc
        → pvc.metadata.owner_references ≡ controller_of m ∷ []
    unfolding Pvc.build_pvc
    build_pvc-owned pvc e = ground (
      arith,
      H.same_namespace m
          (record zero_meta { name = Defaults.pvc; namespace = m.metadata.namespace }) refl refl,
    )

    -- If the resource is in a namespace, the four objects that the operator builds outside all
    -- namespaces have no owner.
    pub builders-unowned :
        is_set m.metadata.namespace ≡ true → All (λ o. o.owner_references ≡ []) cluster_scoped
    unfolding Scc.build_scc Rbac.build_cluster_role Rbac.build_cluster_role_binding
        StorageClass.build_storage_class
    builders-unowned here =
        (alone _ refl refl, (alone _ refl refl, (alone _ refl refl, (alone _ refl refl, tt))))
      where
        alone :
            (o : ObjectMeta)
            → o.namespace ≡ ""
            → o.owner_references ≡ []
            → (P.set_controller_reference m o).1.owner_references ≡ []
        alone o no_namespace free =
            rw
              (H.cross_namespace m o here
                (λ e. is_set→ne m.metadata.namespace here (sym e ∙ no_namespace)))
              free
