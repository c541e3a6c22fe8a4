-- ===== src/Examples/Endings.antt =====
-- Runs that end early: nothing is found, the resource is not valid, a call fails, or the size of the
-- claim is no quantity.
use nfs_provisioner_operator.Base.{
  true, false, none, some, [], ◌∷◌, ◌≡◌, ◌≢◌, refl, sym, ◌∙◌, if◌then◌else◌, is_set,
}
use nfs_provisioner_operator.Base.Exec.{ok, err, panic, found}
use nfs_provisioner_operator.Kube.Meta.{same_name}
use nfs_provisioner_operator.Api.{NfsProvisioner}
use nfs_provisioner_operator.Cluster.{nfs_provisioner, custom_resource_definition}
use nfs_provisioner_operator.Cluster.Memory.{Memory, MemoryError, unavailable, memory, memory_view}
use nfs_provisioner_operator.Cluster.Memory.Laws.{memory-IsLawful}
use nfs_provisioner_operator.Cluster.Memory.Helpers.{memory-HasHelpers}
use nfs_provisioner_operator.Cluster.Memory.{listed}
use nfs_provisioner_operator.Cluster.Memory.Tables.{write, put}
use nfs_provisioner_operator.Resources.Manager.{ensure_all_resources, ensure_each}
use nfs_provisioner_operator.Resources.Scc
use nfs_provisioner_operator.Resources.Scc.{is_scc_crd_available}
use nfs_provisioner_operator.Resources.Pvc
use nfs_provisioner_operator.Resources.ServiceAccount
use nfs_provisioner_operator.Resources.Rbac
use nfs_provisioner_operator.Resources.Deployment
use nfs_provisioner_operator.Resources.Service
use nfs_provisioner_operator.Resources.StorageClass
use nfs_provisioner_operator.Controller.Strings.{contains_string}
use nfs_provisioner_operator.Controller.Validate.{validate}
use nfs_provisioner_operator.Resources.Manager.{new_resource_manager_set}
use nfs_provisioner_operator.Resources.Panics.{BadSize}
use nfs_provisioner_operator.Resources.All.{unmanaged_crd}
use nfs_provisioner_operator.Controller.Validate.{pvc_conflict}
use nfs_provisioner_operator.Controller.Validity.{validate-message}
use nfs_provisioner_operator.Controller.Reconcile.{
  ReconcileResult, reconcile, reconcile_valid, register,
}
use nfs_provisioner_operator.Controller.Steps.{run, ReportsInvalid, reconcile-invalid}
use nfs_provisioner_operator.Controller.Failed.{reconcile-failed}
use nfs_provisioner_operator.Controller.Frame.{reconcile-frame}
use nfs_provisioner_operator.Controller.Panics.{reconcile-panic}
use nfs_provisioner_operator.Examples.Data.{req, live, torn, unsized, only, with_crd, calm}

-- Two choices of storage.
torn-seen : (memory.get nfs_provisioner req (calm (only torn))).0 ≡ found torn
unfolding same_name
torn-seen = refl

torn-invalid : validate torn ≡ some pvc_conflict
unfolding validate
torn-invalid = refl

validate-message_example : pvc_conflict ≡ (
    if is_set torn.spec.pvc then pvc_conflict else "scForPvc or Pvc can not set with hostPathDir")
validate-message_example = validate-message torn pvc_conflict torn-invalid

reconcile-invalid_example :
    ReportsInvalid memory
      (new_resource_manager_set memory)
      req
      (calm (only torn))
      memory-IsLawful
      torn
      (run memory req (calm (only torn)))
reconcile-invalid_example =
    reconcile-invalid memory (new_resource_manager_set memory) req (calm (only torn))
      memory-IsLawful torn pvc_conflict torn-seen torn-invalid

-- A valid resource, whose run writes no definition.
live-valid : validate live ≡ none
unfolding validate
live-valid = refl

reconcile-frame_example :
    memory_view (run memory req (calm (with_crd live))).1 custom_resource_definition Scc.crd_key
    ≡ memory_view (calm (with_crd live)) custom_resource_definition Scc.crd_key
unfolding same_name memory-IsLawful
reconcile-frame_example =
    reconcile-frame memory memory-IsLawful memory-HasHelpers req (calm (with_crd live)) live
      custom_resource_definition Scc.crd_key refl live-valid (λ q. cc (q.0))
      (unmanaged_crd live Scc.crd_key)

-- The read of the claim fails.
abbrev shaky : Memory
shaky = record { tables = only live; outages = false ∷ false ∷ true ∷ [] }

shaky-fails : (run memory req shaky).0 ≡ err unavailable
unfolding same_name write put contains_string reconcile reconcile_valid register
    ensure_all_resources ensure_each is_scc_crd_available Scc.ensure_resource Pvc.ensure_resource
    Pvc.build_pvc ServiceAccount.ensure_resource ServiceAccount.build_service_account
    Rbac.ensure_resource Rbac.ensure_cluster_role Rbac.ensure_cluster_role_binding Rbac.ensure_role
    Rbac.ensure_role_binding Rbac.build_cluster_role Rbac.build_cluster_role_binding Rbac.build_role
    Rbac.build_role_binding Deployment.ensure_resource Service.ensure_resource
    StorageClass.ensure_resource Deployment.build_deployment Service.build_service
    StorageClass.build_storage_class listed validate
shaky-fails = refl

err-ne-ok : (e : MemoryError) (r : ReconcileResult) → err e ≢ ok r
err-ne-ok e r p = cc

reconcile-failed_example : memory_view (run memory req shaky).1 nfs_provisioner req ≡ some live
unfolding same_name memory-IsLawful
reconcile-failed_example =
    reconcile-failed memory memory-IsLawful memory-HasHelpers req shaky live refl live-valid
      (λ r h. err-ne-ok unavailable r (sym shaky-fails ∙ h))

-- The size is no quantity.
unsized-panics : (run memory req (calm (only unsized))).0 ≡ panic
unfolding same_name write put contains_string reconcile reconcile_valid register
    ensure_all_resources ensure_each is_scc_crd_available Scc.ensure_resource Pvc.ensure_resource
    Pvc.build_pvc ServiceAccount.ensure_resource ServiceAccount.build_service_account
    Rbac.ensure_resource Rbac.ensure_cluster_role Rbac.ensure_cluster_role_binding Rbac.ensure_role
    Rbac.ensure_role_binding Rbac.build_cluster_role Rbac.build_cluster_role_binding Rbac.build_role
    Rbac.build_role_binding Deployment.ensure_resource Service.ensure_resource
    StorageClass.ensure_resource Deployment.build_deployment Service.build_service
    StorageClass.build_storage_class listed validate
unsized-panics = refl

reconcile-panic_example :
    (m : NfsProvisioner) × ((memory.get nfs_provisioner req (calm (only unsized))).0 ≡ found m)
    × (validate m ≡ none)
    × BadSize memory m
reconcile-panic_example =
    reconcile-panic memory memory-HasHelpers req (calm (only unsized)) unsized-panics
