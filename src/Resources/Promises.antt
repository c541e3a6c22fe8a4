-- ===== src/Resources/Promises.antt =====
-- What each manager ensures.
use nfs_provisioner_operator.Base.{
  String, true, false, ◌≡◌, ap, sym, subst, fun_ext, List, [], ◌∷◌, is_set, Bool-cases, inl, inr,
  arith,
}
use nfs_provisioner_operator.Base.Exec.{Exec, ok, ok_injective, found}
use nfs_provisioner_operator.Kube.Meta.{ObjectMeta, NamespacedName, named, key_of, zero_meta}
use nfs_provisioner_operator.Kube.Core.{PersistentVolumeClaim}
use nfs_provisioner_operator.Api.{NfsProvisioner}
use nfs_provisioner_operator.Defaults
use nfs_provisioner_operator.Cluster.{Kind, Object, Platform, persistent_volume_claim}
use nfs_provisioner_operator.Cluster.Laws.{View, IsLawful, HasHelpers, key}
use nfs_provisioner_operator.Cluster.Growth.{Ref, Present, Growing-of_eq, Present-grow}
use nfs_provisioner_operator.Resources.Ensure.{Ensures, Ensures-then}
use nfs_provisioner_operator.Resources.GetOrCreate.{get_or_create, Ensures-get_or_create}
use nfs_provisioner_operator.Resources.Refinement.{
  service_account_refines, storage_class_refines, service_refines, deployment_refines,
  cluster_role_refines, cluster_role_binding_refines, role_refines, role_binding_refines,
  pvc_refines,
}
use nfs_provisioner_operator.Resources.Refs.{
  cluster_role_ref, cluster_role_binding_ref, pvc_ref, service_account_ref, role_ref,
  role_binding_ref, deployment_ref, service_ref, storage_class_ref, ClaimReady, AccessReady,
}
use nfs_provisioner_operator.Resources.ServiceAccount
use nfs_provisioner_operator.Resources.StorageClass
use nfs_provisioner_operator.Resources.Service
use nfs_provisioner_operator.Resources.Pvc
use nfs_provisioner_operator.Resources.Deployment
use nfs_provisioner_operator.Resources.Rbac

-- To be owned changes neither name nor namespace.
pub key-owned :
    (P : Platform)
    → HasHelpers P
    → (m : NfsProvisioner) (o : ObjectMeta) → key_of (P.set_controller_reference m o).1 ≡ key_of o
key-owned P H m o = ap key_of (H.references_only m o)

module _ (P : Platform) (L : IsLawful P) where
  open P use {State, Error, get}
  open L use {view, view-get}

  -- The specification, at an object whose name is known.
  Ensures-built :
      (k : Kind) (n : NamespacedName) (o : Object k) (x : Exec State Error (Unit {0}))
      → x ≡ get_or_create P k n (ok o)
      → key k o ≡ n
      → Ensures P L x ((k, n) ∷ []) (λ v. Present v (k, n))
  Ensures-built k n o x e named_n =
      subst (λ y. Ensures P L y ((k, n) ∷ []) (λ v. Present v (k, n))) (sym e)
        (Ensures-get_or_create P L k n (ok o)
          (λ b same. subst (λ c. key k c ≡ n) (ok_injective o b same) named_n))

  -- A function that reads one object and succeeds only if it is there.
  Ensures-read :
      (k : Kind) (n : NamespacedName) (ks : List Ref) (x : Exec State Error (Unit {0}))
      → ((s : State) → (x s).1 ≡ (get k n s).1)
      → ((s : State) → (x s).0 ≡ ok tt → (o : Object k) × ((get k n s).0 ≡ found o))
      → Ensures P L x ks (λ v. Present v (k, n))
  Ensures-read k n ks x reads hit = record {
    grows = λ s. Growing-of_eq _ _ (same s);
    frame = λ s j i other. ap (λ (v : View). v j i) (same s);
    makes = λ s h. let (o, e) = hit s h in (o, rw (same s) (L.get-found k n s o e));
    stable = λ v w g. Present-grow v w (k, n) g;
    quiet = λ s here. same s;
  }
    where
      same : (s : State) → view (x s).1 ≡ view s
      same s = rw (reads s) (view-get k n s)

  -- A function that does nothing.
  Ensures-idle :
      (ks : List Ref) (x : Exec State Error (Unit {0}))
      → ((s : State) → (x s).1 ≡ s)
      → Ensures P L x ks (λ v. Unit {0})
  Ensures-idle ks x idle = record {
    grows = λ s. Growing-of_eq _ _ (ap view (idle s));
    frame = λ s j i other. ap (λ t. view t j i) (idle s);
    makes = λ s h. tt;
    stable = λ v w g q. tt;
    quiet = λ s q. ap view (idle s);
  }

  -- One function for another that does the same.
  Ensures-same :
      (x y : Exec State Error (Unit {0})) (ks : List Ref) (Q : View → Type 0)
      → ((s : State) → x s ≡ y s)
      → Ensures P L y ks Q
      → Ensures P L x ks Q
  Ensures-same x y ks Q e h = subst (λ z. Ensures P L z ks Q) (sym (fun_ext e)) h

  module _ (H : HasHelpers P) (m : NfsProvisioner) where
    pub Ensures-service_account :
        Ensures P L
          (ServiceAccount.ensure_resource P m)
          (service_account_ref m ∷ [])
          (λ v. Present v (service_account_ref m))
    unfolding ServiceAccount.build_service_account
    Ensures-service_account =
        Ensures-built _ _ _ _ (service_account_refines P m) (key-owned P H m _)

    pub Ensures-storage_class :
        Ensures P L
          (StorageClass.ensure_resource P m)
          (storage_class_ref m ∷ [])
          (λ v. Present v (storage_class_ref m))
    unfolding StorageClass.build_storage_class
    Ensures-storage_class = Ensures-built _ _ _ _ (storage_class_refines P m) (key-owned P H m _)

    pub Ensures-service :
        Ensures P L
          (Service.ensure_resource P m)
          (service_ref m ∷ [])
          (λ v. Present v (service_ref m))
    unfolding Service.build_service
    Ensures-service = Ensures-built _ _ _ _ (service_refines P m) (key-owned P H m _)

    pub Ensures-deployment :
        Ensures P L
          (Deployment.ensure_resource P m)
          (deployment_ref m ∷ [])
          (λ v. Present v (deployment_ref m))
    unfolding Deployment.build_deployment
    Ensures-deployment = Ensures-built _ _ _ _ (deployment_refines P m) (key-owned P H m _)

    Ensures-cluster_role :
        Ensures P L
          (Rbac.ensure_cluster_role P m)
          (cluster_role_ref ∷ [])
          (λ v. Present v cluster_role_ref)
    unfolding Rbac.build_cluster_role
    Ensures-cluster_role = Ensures-built _ _ _ _ (cluster_role_refines P m) (key-owned P H m _)

    Ensures-cluster_role_binding :
        Ensures P L
          (Rbac.ensure_cluster_role_binding P m)
          (cluster_role_binding_ref ∷ [])
          (λ v. Present v cluster_role_binding_ref)
    unfolding Rbac.build_cluster_role_binding
    Ensures-cluster_role_binding =
        Ensures-built _ _ _ _ (cluster_role_binding_refines P m) (key-owned P H m _)

    Ensures-role :
        Ensures P L (Rbac.ensure_role P m) (role_ref m ∷ []) (λ v. Present v (role_ref m))
    unfolding Rbac.build_role
    Ensures-role = Ensures-built _ _ _ _ (role_refines P m) (key-owned P H m _)

    Ensures-role_binding :
        Ensures P L
          (Rbac.ensure_role_binding P m)
          (role_binding_ref m ∷ [])
          (λ v. Present v (role_binding_ref m))
    unfolding Rbac.build_role_binding
    Ensures-role_binding = Ensures-built _ _ _ _ (role_binding_refines P m) (key-owned P H m _)

    pub Ensures-rbac :
        Ensures P L
          (Rbac.ensure_resource P m)
          (cluster_role_ref ∷ cluster_role_binding_ref ∷ role_ref m ∷ role_binding_ref m ∷ [])
          (AccessReady m)
    unfolding Rbac.ensure_resource
    Ensures-rbac = Ensures-then P L _ _ _ _ _ _ Ensures-cluster_role (
        Ensures-then P L _ _ _ _ _ _ Ensures-cluster_role_binding
          (Ensures-then P L _ _ _ _ _ _ Ensures-role Ensures-role_binding))

    pub pvc_idle :
        is_set m.spec.host_path_dir ≡ true → (s : State) → (Pvc.ensure_resource P m s).1 ≡ s
    unfolding Pvc.ensure_resource
    pvc_idle p s = rw p

    pub pvc_reads :
        is_set m.spec.host_path_dir ≡ false
        → is_set m.spec.pvc ≡ true
        → (s : State)
        → (Pvc.ensure_resource P m s).1
          ≡ (get persistent_volume_claim (named m.metadata.namespace (Pvc.pvc_name m)) s).1
    unfolding Pvc.ensure_resource
    pvc_reads p q s = ground arith

    pvc_hit :
        is_set m.spec.host_path_dir ≡ false
        → is_set m.spec.pvc ≡ true
        → (s : State) → (Pvc.ensure_resource P m s).0 ≡ ok tt
        → (o : PersistentVolumeClaim) × ((get persistent_volume_claim
              (named m.metadata.namespace (Pvc.pvc_name m))
              s).0
            ≡ found o)
    unfolding Pvc.ensure_resource
    pvc_hit p q s h = ground arith

    pub key-build_pvc :
        (o : PersistentVolumeClaim)
        → Pvc.build_pvc P m ≡ ok o
        → key persistent_volume_claim o ≡ (pvc_ref m).1
    unfolding Pvc.build_pvc
    key-build_pvc o e = ground (
      arith,
      key-owned P H m (record zero_meta { name = Defaults.pvc; namespace = m.metadata.namespace }),
    )

    pub Ensures-pvc : Ensures P L (Pvc.ensure_resource P m) (pvc_ref m ∷ []) (ClaimReady m)
    Ensures-pvc = elim (Bool-cases (is_set m.spec.host_path_dir)) [
      | inl p ↦ subst (Ensures P L x ks) (fun_ext λ v. rw p) (Ensures-idle ks x (pvc_idle p))
      | inr p ↦
          subst (Ensures P L x ks) (fun_ext λ v. rw p) (elim (Bool-cases (is_set m.spec.pvc)) [
            | inl q ↦ Ensures-read _ _ ks x (pvc_reads p q) (pvc_hit p q)
            | inr q ↦
                subst (λ n. Ensures P L x ks (λ v. Present v (claim_named n))) (rw q)
                  (Ensures-same x _ ks _ (pvc_refines P m p q)
                    (Ensures-get_or_create P L _ _ _ key-build_pvc))
          ])
    ]
      where
        x : Exec State Error (Unit {0})
        x = Pvc.ensure_resource P m

        ks : List Ref
        ks = pvc_ref m ∷ []

        claim_named : String → Ref
        claim_named n = (persistent_volume_claim, named m.metadata.namespace n)
