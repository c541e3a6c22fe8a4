-- ===== src/Resources/All.antt =====
-- `EnsureAllResources` as a whole: what it leaves, what it changes, and that it settles.
use nfs_provisioner_operator.Base.{List, [], ◌∷◌, ◌≡◌, ◌∙◌, inl, inr, arith}
use nfs_provisioner_operator.Base.Lists.{Elem}
use nfs_provisioner_operator.Base.Exec.{Exec, ok, found, continue_state, continue_ok}
use nfs_provisioner_operator.Kube.Meta.{NamespacedName}
use nfs_provisioner_operator.Kube.Storage.{CustomResourceDefinition}
use nfs_provisioner_operator.Api.{NfsProvisioner}
use nfs_provisioner_operator.Cluster.{Kind, Platform, custom_resource_definition, nfs_provisioner}
use nfs_provisioner_operator.Cluster.Laws.{View, IsLawful, HasHelpers}
use nfs_provisioner_operator.Cluster.Growth.{Ref, Present, Growing, Growing-trans}
use nfs_provisioner_operator.Resources.Ensure.{Ensures, Ensures-then, Ensures-pure}
use nfs_provisioner_operator.Resources.Refs.{
  pvc_ref, service_account_ref, cluster_role_ref, cluster_role_binding_ref, role_ref,
  role_binding_ref, deployment_ref, service_ref, storage_class_ref, ClaimReady, AccessReady,
}
use nfs_provisioner_operator.Resources.Promises.{
  Ensures-pvc, Ensures-service_account, Ensures-rbac, Ensures-deployment, Ensures-service,
  Ensures-storage_class,
}
use nfs_provisioner_operator.Resources.Scc
use nfs_provisioner_operator.Resources.Scc.{crd_key}
use nfs_provisioner_operator.Resources.Scc.Promise.{
  scc_ref, SccReady, SccReady-grow, scc-grows, scc-frame, scc-makes,
}
use nfs_provisioner_operator.Resources.Manager.{
  new_resource_manager_set, ensure_each, ensure_all_resources,
}

-- The objects that the managers after the first may write.
abbrev pub rest_managed : NfsProvisioner → List Ref
rest_managed m =
    pvc_ref m
    ∷ service_account_ref m
    ∷ cluster_role_ref
    ∷ cluster_role_binding_ref
    ∷ role_ref m
    ∷ role_binding_ref m
    ∷ deployment_ref m
    ∷ service_ref m
    ∷ storage_class_ref m
    ∷ []

-- The objects that `EnsureAllResources` may write.
abbrev pub managed : NfsProvisioner → List Ref
managed m = scc_ref ∷ rest_managed m

-- All that the operator needs but the security context constraints, which a cluster may not know.
pub record IsReady (m : NfsProvisioner) (v : View) : Type 0 where
  pub claim : ClaimReady m v
  pub account : Present v (service_account_ref m)
  pub access : AccessReady m v
  pub deployment : Present v (deployment_ref m)
  pub service : Present v (service_ref m)
  pub storage_class : Present v (storage_class_ref m)

module _ (m : NfsProvisioner) where
  abbrev pub RestReady : View → Type 0
  RestReady v =
      ClaimReady m v
      × (Present v (service_account_ref m)
          × (AccessReady m v
              × (Present v (deployment_ref m)
                  × (Present v (service_ref m) × (Present v (storage_class_ref m) × Unit {0})))))

  pub IsReady-of : (v : View) → RestReady v → IsReady m v
  IsReady-of v r = record {
    claim = r.0;
    account = r.1.0;
    access = r.1.1.0;
    deployment = r.1.1.1.0;
    service = r.1.1.1.1.0;
    storage_class = r.1.1.1.1.1.0;
  }

  pub rest_of : (v : View) → IsReady m v → RestReady v
  rest_of v r =
      (r.claim, (r.account, (r.access, (r.deployment, (r.service, (r.storage_class, tt))))))

  -- Neither a definition nor the custom resource itself is managed.
  pub unmanaged_crd : (n : NamespacedName) → ¬ Elem (custom_resource_definition, n) (managed m)
  unmanaged_crd n e = ground arith

  pub unmanaged_nfs_provisioner : (n : NamespacedName) → ¬ Elem (nfs_provisioner, n) (managed m)
  unmanaged_nfs_provisioner n e = ground arith

module _ (P : Platform) (m : NfsProvisioner) where
  open P use {State, Error}

  -- The loop after the first manager.
  abbrev pub ensure_rest : Exec State Error (Unit {0})
  ensure_rest =
      let set = new_resource_manager_set P in
      ensure_each P
        (set.pvc ∷ set.service_account ∷ set.rbac ∷ set.deployment ∷ set.service ∷ set.storage_class
          ∷ [])
        m

  -- `EnsureAllResources` of the set that the operator makes.
  abbrev pub ensure_all : Exec State Error (Unit {0})
  ensure_all = ensure_all_resources P (new_resource_manager_set P) m

  abbrev pub after_constraints : State → State
  after_constraints s = (Scc.ensure_resource P m s).1

module _ (P : Platform) (L : IsLawful P) (H : HasHelpers P) (m : NfsProvisioner) where
  open P use {State, Error, get}
  open L use {view}

  pub Ensures-rest : Ensures P L (ensure_rest P m) (rest_managed m) (RestReady m)
  unfolding ensure_each
  Ensures-rest = Ensures-then P L _ _ _ _ _ _ (Ensures-pvc P L H m) (
      Ensures-then P L _ _ _ _ _ _ (Ensures-service_account P L H m) (
        Ensures-then P L _ _ _ _ _ _ (Ensures-rbac P L H m) (
          Ensures-then P L _ _ _ _ _ _ (Ensures-deployment P L H m) (
            Ensures-then P L _ _ _ _ _ _ (Ensures-service P L H m)
              (Ensures-then P L _ _ _ _ _ _ (Ensures-storage_class P L H m) (Ensures-pure P L))))))

  -- Whatever holds after the constraints, and after the rest, holds after all.
  pub ensure_all_rule :
      (R : State → Type 0) (s : State)
      → R (after_constraints P m s)
      → R (ensure_rest P m (after_constraints P m s)).1
      → R (ensure_all P m s).1
  unfolding ensure_all_resources
  ensure_all_rule R s first then =
      continue_state R (λ _. ensure_rest P m) (Scc.ensure_resource P m s).0
        (after_constraints P m s) first (λ _ _. then)

  ensure_all_ok :
      (s : State)
      → (ensure_all P m s).0 ≡ ok tt
      → ((Scc.ensure_resource P m s).0 ≡ ok tt)
        × ((ensure_rest P m (after_constraints P m s)).0 ≡ ok tt)
        × (view (ensure_all P m s).1 ≡ view (ensure_rest P m (after_constraints P m s)).1)
  unfolding ensure_all_resources
  ensure_all_ok s h =
      let (u, first, rest) =
        continue_ok (λ _. ensure_rest P m) (Scc.ensure_resource P m s).0 (after_constraints P m s)
          tt h in
      (first, rest, rw first)

  -- `EnsureAllResources`, whether it succeeds, fails or panics, takes no object away and changes
  -- none, but for security context constraints, of which it takes no user away.
  pub ensure_all_resources-Growing : (s : State) → Growing (view s) (view (ensure_all P m s).1)
  ensure_all_resources-Growing s =
      ensure_all_rule (λ t. Growing (view s) (view t)) s (scc-grows P L H m s)
        (Growing-trans _ _ _ (scc-grows P L H m s) (Ensures-rest.grows (after_constraints P m s)))

  -- `EnsureAllResources`, whether it succeeds, fails or panics, writes only the ten managed
  -- objects.
  pub ensure_all_resources-frame :
      (s : State) (k : Kind) (n : NamespacedName)
      → ¬ Elem (k, n) (managed m)
      → view (ensure_all P m s).1 k n ≡ view s k n
  ensure_all_resources-frame s k n other =
      ensure_all_rule (λ t. view t k n ≡ view s k n) s first
        (Ensures-rest.frame (after_constraints P m s) k n (λ listed. other (inr listed)) ∙ first)
    where
      first : view (after_constraints P m s) k n ≡ view s k n
      first = scc-frame P L H m s k n (λ e. other (elim e [ inl p ↦ inl p | inr b ↦ absurd b ]))

  -- If `EnsureAllResources` succeeds, all that the operator needs is in the cluster: the claim that
  -- the deployment is to use unless there is a host path, the service account, the objects of
  -- access control, the deployment, the service and the storage class.
  pub ensure_all_resources-IsReady :
      (s : State) → (ensure_all P m s).0 ≡ ok tt → IsReady m (view (ensure_all P m s).1)
  ensure_all_resources-IsReady s h =
      let (_, rest, same) = ensure_all_ok s h in
      rw same (IsReady-of m _ (Ensures-rest.makes (after_constraints P m s) rest))

  -- If `EnsureAllResources` succeeds and its read of the constraints' definition succeeded, the
  -- security context constraints are in the cluster with a user that the search for the resource's
  -- namespace finds.
  pub ensure_all_resources-SccReady :
      (s : State) (crd : CustomResourceDefinition)
      → (get custom_resource_definition crd_key s).0 ≡ found crd
      → (ensure_all P m s).0 ≡ ok tt
      → SccReady m (view (ensure_all P m s).1)
  ensure_all_resources-SccReady s crd seen h =
      let (first, _, same) = ensure_all_ok s h in
      rw same (
        SccReady-grow m _ _ (Ensures-rest.grows (after_constraints P m s))
          (scc-makes P L H m s crd seen first))
