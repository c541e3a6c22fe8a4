-- ===== src/Controller/Sharing.antt =====
-- Two resources in different namespaces, and the one cluster role binding.
use nfs_provisioner_operator.Base.{String, none, some, true, ◌≡◌, ◌≢◌, ◌∙◌, ap, subst, inl, inr}
use nfs_provisioner_operator.Base.Lists.{Elem}
use nfs_provisioner_operator.Base.Exec.{ok, found}
use nfs_provisioner_operator.Kube.Meta.{NamespacedName}
use nfs_provisioner_operator.Kube.Rbac.{Subject, ClusterRoleBinding}
use nfs_provisioner_operator.Api.{NfsProvisioner}
use nfs_provisioner_operator.Cluster.{Platform, nfs_provisioner, cluster_role_binding}
use nfs_provisioner_operator.Cluster.Laws.{View, IsLawful, HasHelpers}
use nfs_provisioner_operator.Cluster.Growth.{Present}
use nfs_provisioner_operator.Resources.Rbac
use nfs_provisioner_operator.Resources.Refs.{deployment_ref}
use nfs_provisioner_operator.Resources.All.{ensure_all_resources-Growing}
use nfs_provisioner_operator.Controller.Validate.{validate}
use nfs_provisioner_operator.Controller.Cleanup.{cluster_role_binding_key}
use nfs_provisioner_operator.Controller.Reconcile.{ReconcileResult}
use nfs_provisioner_operator.Controller.Steps.{start, run}
use nfs_provisioner_operator.Controller.Live.{live_parts, reconcile-live}

-- The binding lists an account of the namespace.
abbrev pub Binds : ClusterRoleBinding → String → Type 0
Binds b namespace = (x : Subject) × Elem x b.subjects × (x.namespace ≡ namespace)

module _ (P : Platform) (L : IsLawful P) (H : HasHelpers P) where
  open L use {view}

  built-Binds :
      (m : NfsProvisioner) (b : ClusterRoleBinding) (namespace : String)
      → b.subjects ≡ (Rbac.build_cluster_role_binding P m).subjects
      → Binds b namespace
      → m.metadata.namespace ≡ namespace
  unfolding Rbac.build_cluster_role_binding
  built-Binds m b namespace same (x, listed, of_namespace) = elim (subst (Elem x) same listed) [
    | inl this ↦ ap (λ (y : Subject). y.namespace) this ∙ of_namespace
    | inr h ↦ absurd h
  ]

  -- If the resource that a run reads is valid and not being deleted, the cluster role binding in
  -- the cluster has the subjects that the operator gives it for a resource of another namespace,
  -- and the run succeeds, then the deployment is in the cluster while the binding is as it was and
  -- lists no account of the resource's namespace.
  pub reconcile-unbound :
      (req : NamespacedName) (s : P.State) (m other : NfsProvisioner) (b : ClusterRoleBinding)
      → (P.get nfs_provisioner req s).0 ≡ found m
      → validate m ≡ none
      → P.is_zero m.metadata.deletion_timestamp ≡ true
      → view s cluster_role_binding cluster_role_binding_key ≡ some b
      → b.subjects ≡ (Rbac.build_cluster_role_binding P other).subjects
      → other.metadata.namespace ≢ m.metadata.namespace
      → (result : ReconcileResult) → (run P req s).0 ≡ ok result
      → Present (view (run P req s).1) (deployment_ref m)
        × (view (run P req s).1 cluster_role_binding cluster_role_binding_key ≡ some b)
        × ¬ Binds b m.metadata.namespace
  reconcile-unbound req s m other b seen valid alive here same apart result h =
      let (_, _, agree, _) = live_parts P L H req s m seen valid alive result h in
      let (y, there, grown) =
        (ensure_all_resources-Growing P L H m (start P req s)).at cluster_role_binding
          cluster_role_binding_key b
          (ap (λ (v : View). v cluster_role_binding cluster_role_binding_key)
              (L.view-get nfs_provisioner req s)
            ∙ here) in
      (
        (reconcile-live P L H req s m seen valid alive result h).1.deployment,
        agree cluster_role_binding cluster_role_binding_key (λ p. cc) ∙ there ∙ ap some grown,
        λ bound. apart (built-Binds other b m.metadata.namespace same bound),
      )
