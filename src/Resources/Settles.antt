-- ===== src/Resources/Settles.antt =====
-- A second run of `EnsureAllResources` writes nothing.
use nfs_provisioner_operator.Base.{none, ◌≡◌, refl, sym, ◌∙◌, ap, subst, ◌⊎◌, inl, inr}
use nfs_provisioner_operator.Base.Exec.{ok, Reply, found, failed}
use nfs_provisioner_operator.Kube.Storage.{CustomResourceDefinition}
use nfs_provisioner_operator.Api.{NfsProvisioner}
use nfs_provisioner_operator.Cluster.{Platform, custom_resource_definition}
use nfs_provisioner_operator.Cluster.Laws.{View, IsLawful, HasHelpers}
use nfs_provisioner_operator.Resources.Scc
use nfs_provisioner_operator.Resources.Scc.{crd_key}
use nfs_provisioner_operator.Resources.Scc.Promise.{SccReady, scc-quiet}
use nfs_provisioner_operator.Resources.Scc.Rule.{after_crd}
use nfs_provisioner_operator.Resources.All.{
  IsReady, ensure_all, ensure_all_rule, ensure_all_resources-frame, ensure_all_resources-IsReady,
  ensure_all_resources-SccReady, Ensures-rest, rest_of, RestReady, after_constraints, unmanaged_crd,
}

module _ (P : Platform) (L : IsLawful P) (H : HasHelpers P) (m : NfsProvisioner) where
  open P use {State, Error, get}
  open L use {view}

  -- The definition of the constraints is read, or it is not in the cluster.
  abbrev pub CrdKnown : State → Type 0
  CrdKnown s =
      ((crd : CustomResourceDefinition) × ((get custom_resource_definition crd_key s).0
          ≡ found crd))
      ⊎ (view s custom_resource_definition crd_key ≡ none)

  pub scc_skipped :
      (s : State) (e : Error)
      → (get custom_resource_definition crd_key s).0 ≡ failed e
      → (Scc.ensure_resource P m s).1 ≡ after_crd P s
  unfolding Scc.ensure_resource
  scc_skipped s e missed = rw missed

  scc-quiet_absent :
      (s : State)
      → view s custom_resource_definition crd_key ≡ none
      → view (after_constraints P m s) ≡ view s
  scc-quiet_absent s absent = by_reply (get custom_resource_definition crd_key s).0 refl
    where
      by_reply :
          (reply : Reply Error CustomResourceDefinition)
          → (get custom_resource_definition crd_key s).0 ≡ reply
          → view (after_constraints P m s) ≡ view s
      by_reply (found crd) e = cc (absent, L.get-found custom_resource_definition crd_key s crd e)
      by_reply (failed x) e =
          ap view (scc_skipped s x e) ∙ L.view-get custom_resource_definition crd_key s

  -- The constraints are ready, or the cluster does not know them.
  abbrev pub SccSettled : View → Type 0
  SccSettled v = SccReady m v ⊎ (v custom_resource_definition crd_key ≡ none)

  scc-quiet_settled : (t : State) → SccSettled (view t) → view (after_constraints P m t) ≡ view t
  scc-quiet_settled t (inl ready) = scc-quiet P L H m t ready
  scc-quiet_settled t (inr absent) = scc-quiet_absent t absent

  -- With all in place, a run writes nothing.
  pub ensure_all_resources-quiet :
      (t : State) → SccSettled (view t) → IsReady m (view t) → view (ensure_all P m t).1 ≡ view t
  ensure_all_resources-quiet t settled ready =
      let first : view (after_constraints P m t) ≡ view t = scc-quiet_settled t settled in
      ensure_all_rule P L H m (λ u. view u ≡ view t) t first
        ((Ensures-rest P L H m).quiet _ (subst (RestReady m) (sym first) (rest_of m (view t) ready))
          ∙ first)

  pub ensure_all_resources-SccSettled :
      (s : State)
      → CrdKnown s
      → (ensure_all P m s).0 ≡ ok tt
      → SccSettled (view (ensure_all P m s).1)
  ensure_all_resources-SccSettled s (inl (crd, seen)) h =
      inl (ensure_all_resources-SccReady P L H m s crd seen h)
  ensure_all_resources-SccSettled s (inr absent) h = inr (
      ensure_all_resources-frame P L H m s custom_resource_definition crd_key (unmanaged_crd m _)
      ∙ absent)

  -- After `EnsureAllResources` has succeeded, it leaves every object of the cluster as it is when
  -- it is run again, if the definition of the constraints was readable or absent at the first run.
  pub ensure_all_resources-settles :
      (s : State)
      → CrdKnown s
      → (ensure_all P m s).0 ≡ ok tt
      → view (ensure_all P m (ensure_all P m s).1).1 ≡ view (ensure_all P m s).1
  ensure_all_resources-settles s known h =
      ensure_all_resources-quiet _ (ensure_all_resources-SccSettled s known h)
        (ensure_all_resources-IsReady P L H m s h)
