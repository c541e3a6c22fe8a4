-- ===== src/Controller/Provenance.antt =====
-- Where the objects of the cluster come from, over many runs.
use nfs_provisioner_operator.Base.{
  Option, none, some, ◌≡◌, ◌≢◌, refl, ap, sym, subst, inl, inr, ◌⊎◌,
}
use nfs_provisioner_operator.Base.Lists.{Elem}
use nfs_provisioner_operator.Kube.Meta.{NamespacedName}
use nfs_provisioner_operator.Api.{NfsProvisioner}
use nfs_provisioner_operator.Cluster.{
  Kind, Object, Platform, nfs_provisioner, security_context_constraints,
}
use nfs_provisioner_operator.Cluster.Laws.{IsLawful, HasHelpers, Stored, key}
use nfs_provisioner_operator.Cluster.Growth.{Ref}
use nfs_provisioner_operator.Resources.All.{ensure_all}
use nfs_provisioner_operator.Resources.Origin.{Built}
use nfs_provisioner_operator.Resources.Origin.Constraints.{ensure_all_resources-Effect}
use nfs_provisioner_operator.Controller.Validate.{validate}
use nfs_provisioner_operator.Controller.CleanupLaws.{external}
use nfs_provisioner_operator.Controller.History.{Runs, Runs_rule}

module _ (P : Platform) where
  -- What the server stored of an object that the operator builds for some valid resource.
  pub record IsBuilt (k : Kind) (n : NamespacedName) (o : Option (Object k)) : Type 0 where
    pub resource : NfsProvisioner
    pub valid : validate resource ≡ none
    pub sent : Object k
    pub built : Built P resource k sent
    pub named_n : key k sent ≡ n
    pub kept : Object k
    pub is : o ≡ some kept
    pub stored : Stored k sent kept

module _ (P : Platform) (L : IsLawful P) (H : HasHelpers P) where
  open L use {view}

  -- Over any sequence of runs, on whichever resources and whatever their outcomes, an object of the
  -- cluster ends as it was, missing or not, or as what the server stored of the object of its kind
  -- and name that the operator builds for some valid resource, unless it is a custom resource,
  -- security context constraints, the cluster role or its binding.
  pub Runs-IsBuilt :
      (k : Kind) (n : NamespacedName) (s t : P.State)
      → k ≢ nfs_provisioner
      → k ≢ security_context_constraints
      → ¬ Elem (k, n) external
      → Runs P s t
      → (view t k n ≡ view s k n) ⊎ IsBuilt P k n (view t k n)
  Runs-IsBuilt k n s t other plain kept runs =
      Runs_rule P L H k n other kept (λ o. (o ≡ view s k n) ⊎ IsBuilt P k n o) step s t runs
        (inl refl)
    where
      step :
          (m : NfsProvisioner) (u : P.State)
          → validate m ≡ none
          → (view u k n ≡ view s k n) ⊎ IsBuilt P k n (view u k n)
          → (view (ensure_all P m u).1 k n ≡ view s k n)
            ⊎ IsBuilt P k n (view (ensure_all P m u).1 k n)
      step m u valid before = elim (ensure_all_resources-Effect P L H m u k n) [
        | inl (inl same) ↦ subst (λ o. (o ≡ view s k n) ⊎ IsBuilt P k n o) (sym same) before
        | inl (inr (_, made)) ↦ inr (record {
          resource = m;
          valid = valid;
          sent = made.sent;
          built = made.built;
          named_n = made.named_n;
          kept = made.kept;
          is = made.here;
          stored = made.stored;
        })
        | inr (this, _) ↦ absurd (plain (ap (λ (r : Ref). r.0) this))
      ]
