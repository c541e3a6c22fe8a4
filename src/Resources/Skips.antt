-- ===== src/Resources/Skips.antt =====
-- What becomes of the constraints where their definition is not read.
use nfs_provisioner_operator.Base.{◌≡◌, ◌∙◌, ap, arith}
use nfs_provisioner_operator.Base.Exec.{failed}
use nfs_provisioner_operator.Kube.Meta.{NamespacedName}
use nfs_provisioner_operator.Api.{NfsProvisioner}
use nfs_provisioner_operator.Cluster.{
  Platform, custom_resource_definition, security_context_constraints,
}
use nfs_provisioner_operator.Cluster.Laws.{View, IsLawful, HasHelpers}
use nfs_provisioner_operator.Resources.Scc.{crd_key}
use nfs_provisioner_operator.Resources.All.{
  ensure_all, ensure_all_rule, Ensures-rest, after_constraints,
}
use nfs_provisioner_operator.Resources.Settles.{scc_skipped}

module _ (P : Platform) (L : IsLawful P) (H : HasHelpers P) (m : NfsProvisioner) where
  open P use {State, Error, get}
  open L use {view, view-get}

  -- If the read of the constraints' definition fails for whatever reason, `EnsureAllResources`
  -- leaves all security context constraints as they are, whether it succeeds, fails or panics.
  pub ensure_all_resources-skips :
      (s : State) (e : Error) (n : NamespacedName)
      → (get custom_resource_definition crd_key s).0 ≡ failed e
      → view (ensure_all P m s).1 security_context_constraints n
        ≡ view s security_context_constraints n
  ensure_all_resources-skips s e n missed =
      ensure_all_rule P L H m
        (λ t. view t security_context_constraints n ≡ view s security_context_constraints n) s first
        ((Ensures-rest P L H m).frame (after_constraints P m s) security_context_constraints n
            (λ listed. ground arith)
          ∙ first)
    where
      first :
          view (after_constraints P m s) security_context_constraints n
          ≡ view s security_context_constraints n
      first =
          ap (λ t. view t security_context_constraints n) (scc_skipped P L H m s e missed)
          ∙ ap (λ (v : View). v security_context_constraints n)
              (view-get custom_resource_definition crd_key s)
