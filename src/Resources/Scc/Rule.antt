-- ===== src/Resources/Scc/Rule.antt =====
-- The ways in which `EnsureResource` of the constraints can end, as one rule.
use nfs_provisioner_operator.Base.{true, false, [], ◌∷◌, ◌++◌, ◌≡◌, refl, inl, inr, Bool-cases}
use nfs_provisioner_operator.Base.Exec.{Outcome, ok, err, Reply, found, failed, call, ◌>>=◌}
use nfs_provisioner_operator.Kube.Security.{SecurityContextConstraints}
use nfs_provisioner_operator.Api.{NfsProvisioner}
use nfs_provisioner_operator.Cluster.{
  Platform, custom_resource_definition, security_context_constraints,
}
use nfs_provisioner_operator.Kube.Storage.{CustomResourceDefinition}
use nfs_provisioner_operator.Resources.Scc.{
  crd_key, scc_key, user_to_add, user_exists, build_scc, add_user, is_nil, ensure_if, on_reply,
  ensure_resource,
}

module _ (P : Platform) where
  open P use {State, Error, is_not_found, get, create, update}

  -- The constraints with the user that `EnsureResource` adds.
  abbrev pub with_user : NfsProvisioner → SecurityContextConstraints → SecurityContextConstraints
  with_user m scc = record scc { users = scc.users ++ user_to_add m.metadata.namespace ∷ [] }

  -- The states and the answer after the reads of the definition and of the constraints.
  abbrev pub after_crd : State → State
  after_crd s = (get custom_resource_definition crd_key s).1

  abbrev pub after_scc : State → State
  after_scc s = (get security_context_constraints scc_key (after_crd s)).1

  abbrev pub scc_reply : State → Reply Error SecurityContextConstraints
  scc_reply s = (get security_context_constraints scc_key (after_crd s)).0

  module _ (m : NfsProvisioner) (s : State) (R : Outcome Error (Unit {0}) × State → Type 0) where
    found_rule :
        (scc : SecurityContextConstraints)
        → (user_exists m.metadata.namespace scc.users ≡ true → R (ok tt, (after_scc s)))
        → (user_exists m.metadata.namespace scc.users ≡ false
            → R (call (update security_context_constraints (with_user m scc)) (after_scc s)))
        → R (add_user P m scc (after_scc s))
    unfolding add_user
    found_rule scc old new = elim (Bool-cases (user_exists m.metadata.namespace scc.users)) [
      | inl p ↦ rw p (old p)
      | inr p ↦ rw p (new p)
    ]

    pub scc_rule :
        ((e : Error)
          → (get custom_resource_definition crd_key s).0 ≡ failed e
          → R (ok tt, (after_crd s)))
        → ((scc : SecurityContextConstraints)
            → (scc_reply s) ≡ found scc
            → user_exists m.metadata.namespace scc.users ≡ true
            → R (ok tt, (after_scc s)))
        → ((scc : SecurityContextConstraints)
            → (scc_reply s) ≡ found scc
            → user_exists m.metadata.namespace scc.users ≡ false
            → R (call (update security_context_constraints (with_user m scc)) (after_scc s)))
        → ((e : Error)
            → (scc_reply s) ≡ failed e
            → is_not_found e ≡ true
            → R (call (create security_context_constraints (build_scc P m)) (after_scc s)))
        → ((e : Error)
            → (scc_reply s) ≡ failed e
            → is_not_found e ≡ false
            → R (err e, (after_scc s)))
        → R (ensure_resource P m s)
    unfolding ensure_resource
    scc_rule skipped old new missing broken =
        by_crd (get custom_resource_definition crd_key s).0 refl
      where
        by_scc :
            (reply : Reply Error SecurityContextConstraints)
            → (scc_reply s) ≡ reply
            → R (on_reply P m reply (after_scc s))
        by_scc (found scc) e = found_rule scc (old scc e) (new scc e)
        by_scc (failed x) e = elim (Bool-cases (is_not_found x)) [
          | inl p ↦ rw p (missing x e p)
          | inr p ↦ rw p (broken x e p)
        ]

        by_crd :
            (reply : Reply Error CustomResourceDefinition)
            → (get custom_resource_definition crd_key s).0 ≡ reply
            → R ((is_nil P reply >>= ensure_if P m) (after_crd s))
        by_crd (found _) e = by_scc (scc_reply s) refl
        by_crd (failed x) e = skipped x e
