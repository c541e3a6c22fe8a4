-- ===== src/Resources/Origin.antt =====
-- Where the objects of the cluster come from: each is as it was, or was missing and is what the
-- server made of an object that the operator builds.
pub mod Managers
pub mod Constraints
use nfs_provisioner_operator.Base.{
  none, some, Option, ◌≡◌, refl, sym, ◌∙◌, ap, subst, fun_ext, inl, inr, ◌⊎◌, true, Bool-cases,
  is_set, arith, List, [], ◌∷◌,
}
use nfs_provisioner_operator.Base.Exec.{
  Outcome, Exec, ok, failed, call_rule, pure, continue_state, ◌>>◌,
}
use nfs_provisioner_operator.Kube.Meta.{NamespacedName, named, same_name, same_name_iff}
use nfs_provisioner_operator.Api.{NfsProvisioner}
use nfs_provisioner_operator.Cluster.{
  Kind, Object, Platform, nfs_provisioner, custom_resource_definition, security_context_constraints,
  persistent_volume_claim, service_account, cluster_role, cluster_role_binding, role, role_binding,
  deployment, service, storage_class,
}
use nfs_provisioner_operator.Cluster.Laws.{View, IsLawful, HasHelpers, Stored, IsOther, key}
use nfs_provisioner_operator.Cluster.Growth.{Ref, Kind-discrete}
use nfs_provisioner_operator.Resources.Scc
use nfs_provisioner_operator.Resources.ServiceAccount
use nfs_provisioner_operator.Resources.StorageClass
use nfs_provisioner_operator.Resources.Service
use nfs_provisioner_operator.Resources.Pvc
use nfs_provisioner_operator.Resources.Deployment
use nfs_provisioner_operator.Resources.Rbac
use nfs_provisioner_operator.Resources.GetOrCreate.{get_or_create, get_or_create_rule}

-- The object of one name, or another.
pub same_or_IsOther :
    (k : Kind) (n : NamespacedName) (j : Kind) (i : NamespacedName)
    → (◌≡◌ {A = Ref} (k, n) (j, i)) ⊎ IsOther k n j i
same_or_IsOther k n j i = elim (Kind-discrete k j) [
  | no p ↦ inr (λ q. p (sym q.0))
  | yes p ↦ elim (Bool-cases (same_name n i)) [
    | inl q ↦ inl (cc (p, (same_name_iff n i).0 q))
    | inr q ↦ inr (λ r. cc (q, (same_name_iff n i).1 (sym r.1)))
  ]
]

module _ (P : Platform) (m : NfsProvisioner) where
  -- The objects that the operator builds for a resource.
  abbrev pub Built : (k : Kind) → Object k → Type 0
  Built nfs_provisioner o = ⊥
  Built custom_resource_definition o = ⊥
  Built security_context_constraints o = o ≡ Scc.build_scc P m
  Built persistent_volume_claim o = Pvc.build_pvc P m ≡ ok o
  Built service_account o = o ≡ ServiceAccount.build_service_account P m
  Built cluster_role o = o ≡ Rbac.build_cluster_role P m
  Built cluster_role_binding o = o ≡ Rbac.build_cluster_role_binding P m
  Built role o = o ≡ Rbac.build_role P m
  Built role_binding o = o ≡ Rbac.build_role_binding P m
  Built deployment o = o ≡ Deployment.build_deployment P m (Deployment.storage_type m)
  Built service o = o ≡ Service.build_service P m
  Built storage_class o = o ≡ StorageClass.build_storage_class P m

  -- An object of `w` that the server stored when it was sent one that the operator builds.
  pub record IsMade (w : View) (k : Kind) (n : NamespacedName) : Type 0 where
    pub sent : Object k
    pub built : Built k sent
    pub named_n : key k sent ≡ n
    pub kept : Object k
    pub here : w k n ≡ some kept
    pub stored : Stored k sent kept

  -- From `v` to `w`, the object stays as it is, or was missing and is made.
  abbrev pub Origin : View → View → (k : Kind) → NamespacedName → Type 0
  Origin v w k n = (w k n ≡ v k n) ⊎ ((v k n ≡ none) × IsMade w k n)

  IsMade-same :
      (v w : View) (k : Kind) (n : NamespacedName) → w k n ≡ v k n → IsMade v k n → IsMade w k n
  IsMade-same v w k n e made = record {
    sent = made.sent;
    built = made.built;
    named_n = made.named_n;
    kept = made.kept;
    here = e ∙ made.here;
    stored = made.stored;
  }

  pub Origin-trans :
      (u v w : View) (k : Kind) (n : NamespacedName)
      → Origin u v k n
      → Origin v w k n
      → Origin u w k n
  Origin-trans u v w k n (inl e) (inl f) = inl (f ∙ e)
  Origin-trans u v w k n (inl e) (inr (missing, made)) = inr (sym e ∙ missing, made)
  Origin-trans u v w k n (inr (missing, made)) (inl f) = inr (missing, IsMade-same v w k n f made)
  Origin-trans u v w k n (inr (missing, made)) (inr (gone, _)) = cc (made.here, gone)

  module _ (L : IsLawful P) where
    open P use {State, Error, get, create}
    open L use {view, view-get}

    pub record Builds (x : Exec State Error (Unit {0})) : Type 0 where
      pub at : (s : State) (k : Kind) (n : NamespacedName) → Origin (view s) (view (x s).1) k n

    pub Builds-pure : Builds (pure tt)
    Builds-pure = record { at = λ s k n. inl refl }

    pub Builds-same : (x y : Exec State Error (Unit {0})) → x ≡ y → Builds y → Builds x
    Builds-same x y e h = subst Builds (sym e) h

    pub Builds-then : (x y : Exec State Error (Unit {0})) → Builds x → Builds y → Builds (x >> y)
    Builds-then x y hx hy = record {
      at = λ s k n.
          continue_state (λ t. Origin (view s) (view t) k n) (λ _. y) (x s).0 (x s).1 (hx.at s k n)
            λ _ _. Origin-trans (view s) (view (x s).1) _ k n (hx.at s k n) (hy.at (x s).1 k n);
    }

    -- What is only read stays.
    pub Builds-read :
        (x : Exec State Error (Unit {0})) → ((s : State) → view (x s).1 ≡ view s) → Builds x
    Builds-read x reads = record { at = λ s k n. inl (ap (λ (v : View). v k n) (reads s)) }

    module _ (k : Kind) (n : NamespacedName) (build : Outcome Error (Object k))
        (named_n : (o : Object k) → build ≡ ok o → key k o ≡ n)
        (builds : (o : Object k) → build ≡ ok o → Built k o) where
      pub created :
          (t : State) (o : Object k)
          → build ≡ ok o
          → view t k n ≡ none
          → (create k o t).0 ≡ none
          → (j : Kind) (i : NamespacedName) → Origin (view t) (view (create k o t).1) j i
      created t o b missing done j i = elim (same_or_IsOther k n j i) [
        | inr other ↦ inl (L.create-other k o t j i (λ q. other (q.0, q.1 ∙ named_n o b)))
        | inl same ↦
            subst (λ (r : Ref). Origin (view t) (view (create k o t).1) r.0 r.1) same
              (let (x, here, stored) = L.create-done k o t done in
                inr (
                  missing,
                  record {
                    sent = o;
                    built = builds o b;
                    named_n = named_n o b;
                    kept = x;
                    here = subst (λ a. view (create k o t).1 k a ≡ some x) (named_n o b) here;
                    stored = stored;
                  },
                ))
      ]

      pub Builds-get_or_create : Builds (get_or_create P k n build)
      Builds-get_or_create = record {
        at = λ s j i.
            get_or_create_rule P k n build (λ p. Origin (view s) (view p.1) j i) s
              (λ _ _. inl (ap (λ (v : View). v j i) (view-get k n s)))
              (λ _ _. inl (ap (λ (v : View). v j i) (view-get k n s)))
              (λ e o missed is_missing b.
                call_rule (λ p. Origin (view s) (view p.1) j i) (create k o) (get k n s).1
                  (λ done.
                    Origin-trans (view s) (view (get k n s).1) _ j i
                      (inl (ap (λ (v : View). v j i) (view-get k n s)))
                      (created (get k n s).1 o b
                        (ap (λ (v : View). v k n) (view-get k n s)
                          ∙ L.get-missing k n s e missed is_missing)
                        done j i))
                  (λ x bad.
                    inl (ap (λ (v : View). v j i) (L.create-failed k o _ x bad ∙ view-get k n s))));
      }
