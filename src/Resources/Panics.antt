-- ===== src/Resources/Panics.antt =====
-- When a run of the managers panics.
use nfs_provisioner_operator.Base.{
  true, false, none, ◌≡◌, ◌↔◌, sym, subst, inl, inr, arith, Bool-cases, is_set,
}
use nfs_provisioner_operator.Base.Exec.{
  ok, panic, Exec, Reply, found, failed, PanicsOnly, pure_panics, bind_panics, returned-ne-panic,
  ask, ◌>>◌,
}
use nfs_provisioner_operator.Kube.Meta.{NamespacedName, named}
use nfs_provisioner_operator.Api.{NfsProvisioner}
use nfs_provisioner_operator.Cluster.{Kind, Object, Platform, persistent_volume_claim}
use nfs_provisioner_operator.Resources.GetOrCreate.{get_or_create, on_reply}
use nfs_provisioner_operator.Resources.Refinement.{
  service_account_refines, storage_class_refines, service_refines, deployment_refines,
  cluster_role_refines, cluster_role_binding_refines, role_refines, role_binding_refines,
}
use nfs_provisioner_operator.Resources.Scc
use nfs_provisioner_operator.Resources.Scc.Rule.{scc_rule}
use nfs_provisioner_operator.Resources.Pvc
use nfs_provisioner_operator.Resources.Rbac
use nfs_provisioner_operator.Resources.Manager.{ensure_each, ensure_all_resources}
use nfs_provisioner_operator.Resources.All.{ensure_all}

module _ (P : Platform) (m : NfsProvisioner) where
  open P use {State, Error, is_not_found, get, parse_quantity}

  -- The operator is to make the claim, and its size is no quantity.
  abbrev pub BadSize : Type 0
  BadSize =
      (is_set m.spec.host_path_dir ≡ false)
      × (is_set m.spec.pvc ≡ false)
      × (parse_quantity (Pvc.pvc_size m) ≡ none)

  -- The claim is known to be missing.
  abbrev pub ClaimMissing : State → Type 0
  ClaimMissing s =
      (e : Error) × ((get persistent_volume_claim (named m.metadata.namespace (Pvc.pvc_name m)) s).0
        ≡ failed e)
      × (is_not_found e ≡ true)

  -- The claim's manager panics exactly if there is neither a host path nor a claim of the user's,
  -- the read says that the claim is missing, and the storage size is no quantity.
  pub pvc-panic_iff :
      (s : State) → ((Pvc.ensure_resource P m s).0 ≡ panic) ↔ (BadSize × ClaimMissing s)
  unfolding Pvc.ensure_resource Pvc.build_pvc
  pvc-panic_iff s = ground arith

  scc_panics : PanicsOnly BadSize (Scc.ensure_resource P m)
  scc_panics s =
      scc_rule P m s (λ p. p.0 ≡ panic → BadSize) (λ _ _ p. cc) (λ _ _ _ p. cc)
        (λ _ _ _ p. absurd (returned-ne-panic _ p)) (λ _ _ _ p. absurd (returned-ne-panic _ p))
        (λ _ _ _ p. cc)

  reply_panics :
      (k : Kind) (n : NamespacedName) (o : Object k) (reply : Reply Error (Object k))
      → PanicsOnly BadSize (on_reply P k n (ok o) reply)
  reply_panics k n o (found _) s = λ p. cc
  reply_panics k n o (failed e) s = elim (Bool-cases (is_not_found e)) [
    | inl h ↦ rw h (λ p. absurd (returned-ne-panic _ p))
    | inr h ↦ rw h (λ p. cc)
  ]

  created_panics :
      (k : Kind) (n : NamespacedName) (o : Object k)
      → PanicsOnly BadSize (get_or_create P k n (ok o))
  unfolding get_or_create
  created_panics k n o =
      bind_panics BadSize (ask (get k n)) (on_reply P k n (ok o)) (λ s p. cc) (reply_panics k n o)

  built_panics :
      (k : Kind) (n : NamespacedName) (o : Object k) (x : Exec State Error (Unit {0}))
      → x ≡ get_or_create P k n (ok o)
      → PanicsOnly BadSize x
  built_panics k n o x e = subst (PanicsOnly BadSize) (sym e) (created_panics k n o)

  -- The loop over the managers panics only there.
  pub ensure_all_resources-panic : (s : State) → (ensure_all P m s).0 ≡ panic → BadSize
  unfolding ensure_all_resources ensure_each Rbac.ensure_resource
  ensure_all_resources-panic = next _ _ scc_panics (
      next _ _ (λ s p. ((pvc-panic_iff s).0 p).0)
        (next _ _ (built_panics _ _ _ _ (service_account_refines P m)) (
          next _ _
            (next _ _ (built_panics _ _ _ _ (cluster_role_refines P m)) (
              next _ _ (built_panics _ _ _ _ (cluster_role_binding_refines P m)) (
                next _ _ (built_panics _ _ _ _ (role_refines P m))
                  (built_panics _ _ _ _ (role_binding_refines P m)))))
            (next _ _ (built_panics _ _ _ _ (deployment_refines P m)) (
              next _ _ (built_panics _ _ _ _ (service_refines P m)) (
                next _ _ (built_panics _ _ _ _ (storage_class_refines P m))
                  (pure_panics BadSize tt)))))))
    where
      next :
          (x y : Exec State Error (Unit {0}))
          → PanicsOnly BadSize x
          → PanicsOnly BadSize y
          → PanicsOnly BadSize (x >> y)
      next x y first second = bind_panics BadSize x (λ _. y) first (λ _. second)
