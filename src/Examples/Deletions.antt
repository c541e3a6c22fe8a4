-- ===== src/Examples/Deletions.antt =====
-- Runs on a resource that is being deleted, and the cleanup.
use nfs_provisioner_operator.Base.{
  true, false, ◌⊎◌, none, some, [], ◌∷◌, ◌≡◌, refl, sym, ◌∙◌, ap, inl, inr,
}
use nfs_provisioner_operator.Base.Exec.{ok, found, failed}
use nfs_provisioner_operator.Kube.Meta.{same_name}
use nfs_provisioner_operator.Kube.Rbac.{ClusterRole, ClusterRoleBinding}
use nfs_provisioner_operator.Cluster.{nfs_provisioner, cluster_role, cluster_role_binding}
use nfs_provisioner_operator.Cluster.Growth.{Present}
use nfs_provisioner_operator.Cluster.Memory.{Memory, unavailable, memory, memory_view}
use nfs_provisioner_operator.Cluster.Memory.Laws.{memory-IsLawful}
use nfs_provisioner_operator.Cluster.Memory.Helpers.{memory-HasHelpers}
use nfs_provisioner_operator.Cluster.Memory.Answers.{memory-Answers}
use nfs_provisioner_operator.Cluster.Memory.{listed}
use nfs_provisioner_operator.Cluster.Memory.Tables.{write, put}
use nfs_provisioner_operator.Resources.Manager.{ensure_all_resources, ensure_each}
use nfs_provisioner_operator.Resources.Scc
use nfs_provisioner_operator.Resources.Scc.{is_scc_crd_available}
use nfs_provisioner_operator.Resources.Pvc
use nfs_provisioner_operator.Resources.ServiceAccount
use nfs_provisioner_operator.Resources.Rbac
use nfs_provisioner_operator.Resources.Deployment
use nfs_provisioner_operator.Resources.Service
use nfs_provisioner_operator.Resources.StorageClass
use nfs_provisioner_operator.Controller.Strings.{contains_string}
use nfs_provisioner_operator.Controller.Validate.{validate}
use nfs_provisioner_operator.Resources.Refs.{storage_class_ref, cluster_role_ref}
use nfs_provisioner_operator.Controller.Cleanup.{
  delete_if_found, delete_external_resources, cluster_role_key, cluster_role_binding_key,
}
use nfs_provisioner_operator.Controller.CleanupLaws.{after_role}
use nfs_provisioner_operator.Controller.Reconcile.{
  done, reconcile, reconcile_valid, register, finalize,
}
use nfs_provisioner_operator.Controller.Steps.{run, ensured}
use nfs_provisioner_operator.Controller.Success.{reconcile-succeeds}
use nfs_provisioner_operator.Controller.Deletion.{
  IsUnmarked, reconcile-overlooks, reconcile-deletes, reconcile-leaves_storage_class,
  reconcile-cleans,
}
use nfs_provisioner_operator.Controller.Marked.{IsMarked, Removes, reconcile-Removes}
use nfs_provisioner_operator.Examples.Data.{req, deleted, only, calm}

abbrev leaving : Memory
leaving = calm (only deleted)

leaving-seen : (memory.get nfs_provisioner req leaving).0 ≡ found deleted
unfolding same_name
leaving-seen = refl

deleted-valid : validate deleted ≡ none
unfolding validate
deleted-valid = refl

leaving-done : (run memory req leaving).0 ≡ ok done
unfolding memory-IsLawful memory-Answers
leaving-done =
    (reconcile-succeeds memory memory-IsLawful memory-Answers memory-HasHelpers req leaving deleted
      leaving-seen deleted-valid refl (inr (inr (refl, (10000000000, refl))))).0

reconcile-deletes_example :
    (done ≡ done) × IsUnmarked (memory_view (run memory req leaving).1 nfs_provisioner req)
unfolding memory-IsLawful
reconcile-deletes_example =
    reconcile-deletes memory memory-IsLawful memory-HasHelpers req leaving deleted leaving-seen
      deleted-valid refl (inl refl) done leaving-done

reconcile-leaves_storage_class_example :
    Present (memory_view (run memory req leaving).1) (storage_class_ref deleted)
unfolding memory-IsLawful
reconcile-leaves_storage_class_example =
    reconcile-leaves_storage_class memory memory-IsLawful memory-HasHelpers req leaving deleted
      leaving-seen deleted-valid refl (inl refl) done leaving-done

-- The cleanup's reads in that run.
role_injective : (x y : ClusterRole) → some x ≡ some y → x ≡ y
role_injective x y p = cc

binding_injective : (x y : ClusterRoleBinding) → some x ≡ some y → x ≡ y
binding_injective x y p = cc

leaving-role :
    memory_view (ensured memory deleted req leaving) cluster_role cluster_role_key
    ≡ some (Rbac.build_cluster_role memory deleted)
unfolding same_name write put contains_string reconcile reconcile_valid register
    ensure_all_resources ensure_each is_scc_crd_available Scc.ensure_resource Pvc.ensure_resource
    Pvc.build_pvc ServiceAccount.ensure_resource ServiceAccount.build_service_account
    Rbac.ensure_resource Rbac.ensure_cluster_role Rbac.ensure_cluster_role_binding Rbac.ensure_role
    Rbac.ensure_role_binding Rbac.build_cluster_role Rbac.build_cluster_role_binding Rbac.build_role
    Rbac.build_role_binding Deployment.ensure_resource Service.ensure_resource
    StorageClass.ensure_resource Deployment.build_deployment Service.build_service
    StorageClass.build_storage_class listed validate finalize delete_external_resources
    delete_if_found
leaving-role = refl

leaving-binding :
    memory_view (ensured memory deleted req leaving) cluster_role_binding cluster_role_binding_key
    ≡ some (Rbac.build_cluster_role_binding memory deleted)
unfolding same_name write put contains_string reconcile reconcile_valid register
    ensure_all_resources ensure_each is_scc_crd_available Scc.ensure_resource Pvc.ensure_resource
    Pvc.build_pvc ServiceAccount.ensure_resource ServiceAccount.build_service_account
    Rbac.ensure_resource Rbac.ensure_cluster_role Rbac.ensure_cluster_role_binding Rbac.ensure_role
    Rbac.ensure_role_binding Rbac.build_cluster_role Rbac.build_cluster_role_binding Rbac.build_role
    Rbac.build_role_binding Deployment.ensure_resource Service.ensure_resource
    StorageClass.ensure_resource Deployment.build_deployment Service.build_service
    StorageClass.build_storage_class listed validate finalize delete_external_resources
    delete_if_found
leaving-binding = refl

leaving-calm : (ensured memory deleted req leaving).outages ≡ []
unfolding same_name write put contains_string reconcile reconcile_valid register
    ensure_all_resources ensure_each is_scc_crd_available Scc.ensure_resource Pvc.ensure_resource
    Pvc.build_pvc ServiceAccount.ensure_resource ServiceAccount.build_service_account
    Rbac.ensure_resource Rbac.ensure_cluster_role Rbac.ensure_cluster_role_binding Rbac.ensure_role
    Rbac.ensure_role_binding Rbac.build_cluster_role Rbac.build_cluster_role_binding Rbac.build_role
    Rbac.build_role_binding Deployment.ensure_resource Service.ensure_resource
    StorageClass.ensure_resource Deployment.build_deployment Service.build_service
    StorageClass.build_storage_class listed validate finalize delete_external_resources
    delete_if_found
leaving-calm = refl

after_role-calm :
    (after_role memory memory-IsLawful (ensured memory deleted req leaving)).outages ≡ []
unfolding same_name write put contains_string reconcile reconcile_valid register
    ensure_all_resources ensure_each is_scc_crd_available Scc.ensure_resource Pvc.ensure_resource
    Pvc.build_pvc ServiceAccount.ensure_resource ServiceAccount.build_service_account
    Rbac.ensure_resource Rbac.ensure_cluster_role Rbac.ensure_cluster_role_binding Rbac.ensure_role
    Rbac.ensure_role_binding Rbac.build_cluster_role Rbac.build_cluster_role_binding Rbac.build_role
    Rbac.build_role_binding Deployment.ensure_resource Service.ensure_resource
    StorageClass.ensure_resource Deployment.build_deployment Service.build_service
    StorageClass.build_storage_class listed validate finalize delete_external_resources
    delete_if_found
after_role-calm = refl

reconcile-cleans_example :
    (memory_view (run memory req leaving).1 cluster_role cluster_role_key ≡ none)
    × (memory_view (run memory req leaving).1 cluster_role_binding cluster_role_binding_key ≡ none)
unfolding memory-IsLawful memory-Answers Rbac.build_cluster_role Rbac.build_cluster_role_binding
reconcile-cleans_example =
    reconcile-cleans memory memory-IsLawful memory-HasHelpers req leaving deleted leaving-seen
      deleted-valid refl (inl refl)
      (λ e.
        memory-Answers.get-answers cluster_role cluster_role_key
          (ensured memory deleted req leaving) e leaving-calm)
      (λ e.
        memory-Answers.get-answers cluster_role_binding cluster_role_binding_key
          (after_role memory memory-IsLawful (ensured memory deleted req leaving)) e
          after_role-calm)
      (λ o there.
        ap (λ (x : ClusterRole). x.metadata.finalizers)
          (role_injective o _ (sym there ∙ leaving-role)))
      (λ o there.
        ap (λ (x : ClusterRoleBinding). x.metadata.finalizers)
          (binding_injective o _ (sym there ∙ leaving-binding)))
      done leaving-done

-- The cluster is not to be reached for the read of the role in the cleanup, the twenty-first call.
abbrev hiding : Memory
hiding = record {
  tables = only deleted;
  outages =
      false ∷ false ∷ false ∷ false ∷ false ∷ false ∷ false ∷ false ∷ false ∷ false ∷ false ∷ false
      ∷ false ∷ false ∷ false ∷ false ∷ false ∷ false ∷ false ∷ false ∷ true ∷ [];
}

hiding-seen : (memory.get nfs_provisioner req hiding).0 ≡ found deleted
unfolding same_name
hiding-seen = refl

hiding-unread :
    (memory.get cluster_role cluster_role_key (ensured memory deleted req hiding)).0
    ≡ failed unavailable
unfolding same_name write put contains_string reconcile reconcile_valid register
    ensure_all_resources ensure_each is_scc_crd_available Scc.ensure_resource Pvc.ensure_resource
    Pvc.build_pvc ServiceAccount.ensure_resource ServiceAccount.build_service_account
    Rbac.ensure_resource Rbac.ensure_cluster_role Rbac.ensure_cluster_role_binding Rbac.ensure_role
    Rbac.ensure_role_binding Rbac.build_cluster_role Rbac.build_cluster_role_binding Rbac.build_role
    Rbac.build_role_binding Deployment.ensure_resource Service.ensure_resource
    StorageClass.ensure_resource Deployment.build_deployment Service.build_service
    StorageClass.build_storage_class listed validate finalize delete_external_resources
    delete_if_found
hiding-unread = refl

hiding-done : (run memory req hiding).0 ≡ ok done
unfolding same_name write put contains_string reconcile reconcile_valid register
    ensure_all_resources ensure_each is_scc_crd_available Scc.ensure_resource Pvc.ensure_resource
    Pvc.build_pvc ServiceAccount.ensure_resource ServiceAccount.build_service_account
    Rbac.ensure_resource Rbac.ensure_cluster_role Rbac.ensure_cluster_role_binding Rbac.ensure_role
    Rbac.ensure_role_binding Rbac.build_cluster_role Rbac.build_cluster_role_binding Rbac.build_role
    Rbac.build_role_binding Deployment.ensure_resource Service.ensure_resource
    StorageClass.ensure_resource Deployment.build_deployment Service.build_service
    StorageClass.build_storage_class listed validate finalize delete_external_resources
    delete_if_found
hiding-done = refl

reconcile-overlooks_example :
    Present (memory_view (run memory req hiding).1) cluster_role_ref
    × IsUnmarked (memory_view (run memory req hiding).1 nfs_provisioner req)
unfolding memory-IsLawful
reconcile-overlooks_example =
    reconcile-overlooks memory memory-IsLawful memory-HasHelpers req hiding deleted hiding-seen
      deleted-valid refl (inl refl) unavailable hiding-unread done hiding-done

reconcile-Removes_example :
    IsMarked (memory_view (run memory req hiding).1 nfs_provisioner req)
    ⊎ Removes memory deleted req hiding
unfolding memory-IsLawful
reconcile-Removes_example =
    reconcile-Removes memory memory-IsLawful memory-HasHelpers req hiding deleted hiding-seen
      (inl refl) deleted-valid
