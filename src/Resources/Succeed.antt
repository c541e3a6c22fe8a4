-- ===== src/Resources/Succeed.antt =====
-- `EnsureAllResources` succeeds in a cluster that answers.
use nfs_provisioner_operator.Base.{Bool, true, false, none, [], ◌∷◌, ◌≡◌, refl, sym, ◌∙◌, ap, subst}
use nfs_provisioner_operator.Base.Exec.{ok, Exec}
use nfs_provisioner_operator.Kube.Meta.{NamespacedName}
use nfs_provisioner_operator.Api.{NfsProvisioner}
use nfs_provisioner_operator.Cluster.{
  Kind, Object, meta, Platform, security_context_constraints, custom_resource_definition,
}
use nfs_provisioner_operator.Cluster.Laws.{View, IsLawful, HasHelpers, key}
use nfs_provisioner_operator.Cluster.Answers.{Answers}
use nfs_provisioner_operator.Resources.Success.{
  Fine, Works, Works-then, Works-get_or_create, continue-Fine, create-Fine, update-Fine,
}
use nfs_provisioner_operator.Resources.GetOrCreate.{get_or_create}
use nfs_provisioner_operator.Resources.Promises.{key-owned}
use nfs_provisioner_operator.Resources.Refinement.{
  service_account_refines, storage_class_refines, service_refines, deployment_refines,
  cluster_role_refines, cluster_role_binding_refines, role_refines, role_binding_refines,
}
use nfs_provisioner_operator.Resources.Scc
use nfs_provisioner_operator.Resources.Scc.Rule.{scc_rule, with_user, after_scc, after_crd}
use nfs_provisioner_operator.Resources.Scc.Promise.{
  scc-grows, found-view, missing-view, key-build_scc, view-after_scc,
}
use nfs_provisioner_operator.Resources.ServiceAccount
use nfs_provisioner_operator.Resources.StorageClass
use nfs_provisioner_operator.Resources.Service
use nfs_provisioner_operator.Resources.Pvc
use nfs_provisioner_operator.Resources.Deployment
use nfs_provisioner_operator.Resources.Rbac
use nfs_provisioner_operator.Resources.Manager.{
  new_resource_manager_set, ensure_each, ensure_all_resources,
}
use nfs_provisioner_operator.Resources.All.{ensure_all, ensure_rest}
use nfs_provisioner_operator.Resources.Storage.{HasStorage, unmarked, pvc-Fine, HasStorage-grow}

not_both : (b : Bool) → b ≡ true → ¬ (b ≡ false)
not_both b p q = cc

module _ (P : Platform) (L : IsLawful P) (A : Answers P L) (H : HasHelpers P)
    (m : NfsProvisioner) where
  open P use {State, Error, is_not_found, get, create, update}
  open L use {view, view-get}
  open A use {IsUp}

  Works-built :
      (k : Kind) (n : NamespacedName) (o : Object k) (x : Exec State Error (Unit {0}))
      → x ≡ get_or_create P k n (ok o)
      → key k o ≡ n
      → (meta k o).deletion_timestamp ≡ none
      → Works P L A x
  Works-built k n o x e named_n fresh =
      subst (Works P L A) (sym e) (Works-get_or_create P L A k n (ok o) o refl named_n fresh)

  Works-rbac : Works P L A (Rbac.ensure_resource P m)
  unfolding Rbac.ensure_resource Rbac.build_cluster_role Rbac.build_cluster_role_binding
      Rbac.build_role Rbac.build_role_binding
  Works-rbac =
      Works-then P L A _ _
        (Works-built _ _ _ _ (cluster_role_refines P m) (key-owned P H m _)
          (unmarked P L A H m _ refl))
        (Works-then P L A _ _
          (Works-built _ _ _ _ (cluster_role_binding_refines P m) (key-owned P H m _)
            (unmarked P L A H m _ refl))
          (Works-then P L A _ _
            (Works-built _ _ _ _ (role_refines P m) (key-owned P H m _) (unmarked P L A H m _ refl))
            (Works-built _ _ _ _ (role_binding_refines P m) (key-owned P H m _)
              (unmarked P L A H m _ refl))))

  abbrev after_pvc : Exec State Error (Unit {0})
  after_pvc =
      let set = new_resource_manager_set P in
      ensure_each P
        (set.service_account ∷ set.rbac ∷ set.deployment ∷ set.service ∷ set.storage_class ∷ []) m

  Works-after_pvc : Works P L A after_pvc
  unfolding ServiceAccount.build_service_account Deployment.build_deployment Service.build_service
      StorageClass.build_storage_class ensure_each
  Works-after_pvc =
      Works-then P L A _ _
        (Works-built _ _ _ _ (service_account_refines P m) (key-owned P H m _)
          (unmarked P L A H m _ refl))
        (Works-then P L A _ _ Works-rbac (
          Works-then P L A _ _
            (Works-built _ _ _ _ (deployment_refines P m) (key-owned P H m _)
              (unmarked P L A H m _ refl))
            (Works-then P L A _ _
              (Works-built _ _ _ _ (service_refines P m) (key-owned P H m _)
                (unmarked P L A H m _ refl))
              (Works-then P L A _ _
                (Works-built _ _ _ _ (storage_class_refines P m) (key-owned P H m _)
                  (unmarked P L A H m _ refl))
                (λ s up. (refl, up))))))

  up_after_scc : (s : State) → IsUp s → IsUp (after_scc P s)
  up_after_scc s up = A.get-IsUp _ _ _ (A.get-IsUp _ _ s up)

  Works-scc : Works P L A (Scc.ensure_resource P m)
  unfolding Scc.build_scc
  Works-scc s up =
      scc_rule P m s (Fine P L A) (λ e _. (refl, A.get-IsUp _ _ s up))
        (λ scc _ _. (refl, up_after_scc s up))
        (λ scc e _.
          let here = found-view P L H m s scc e in
          update-Fine P L A security_context_constraints (with_user P m scc) scc Scc.scc_key _
            (up_after_scc s up)
            (L.key-view security_context_constraints Scc.scc_key (after_scc P s) scc here) here)
        (λ e missed p.
          create-Fine P L A security_context_constraints (Scc.build_scc P m) _ (up_after_scc s up)
            (unmarked P L A H m _ refl)
            (subst (λ i. view (after_scc P s) security_context_constraints i ≡ none)
              (sym (key-build_scc P L H m))
              (ap (λ (v : View). v security_context_constraints Scc.scc_key)
                  (view-after_scc P L H m s)
                ∙ missing-view P L H m s e missed p)))
        (λ e missed p. absurd (
          not_both _
            (A.get-answers security_context_constraints Scc.scc_key (after_crd P s) e
              (A.get-IsUp custom_resource_definition Scc.crd_key s up) missed)
            p))

  -- In a cluster that answers, `EnsureAllResources` succeeds if the storage of the resource can be
  -- had, whatever else the cluster holds, and the cluster goes on answering.
  pub ensure_all_resources-succeeds :
      (s : State)
      → IsUp s
      → HasStorage P m (view s)
      → ((ensure_all P m s).0 ≡ ok tt) × IsUp (ensure_all P m s).1
  unfolding ensure_all_resources ensure_each
  ensure_all_resources-succeeds s up storage =
      let (first, up_scc) = Works-scc s up in
      let (second, up_pvc) =
        pvc-Fine P L A H m _ up_scc (HasStorage-grow P L A H m _ _ (scc-grows P L H m s) storage) in
      continue-Fine P L A (ensure_rest P m) (Scc.ensure_resource P m s).0 _ first (
        continue-Fine P L A after_pvc (Pvc.ensure_resource P m (Scc.ensure_resource P m s).1).0 _
          second (Works-after_pvc _ up_pvc))
