-- ===== src/Resources/Scc/Counts.antt =====
-- How often a user is listed in the constraints.
use nfs_provisioner_operator.Base.{
  ℕ, zero, suc, ◌+◌, ◌≤◌, String, false, ◌==◌, eq_iff, Option, none, some, List, [], ◌∷◌, ◌++◌, ◌≡◌,
  refl, ◌∙◌, if◌then◌else◌, arith, inl, inr, ap, subst,
}
use nfs_provisioner_operator.Kube.Security.{SecurityContextConstraints}
use nfs_provisioner_operator.Api.{NfsProvisioner}
use nfs_provisioner_operator.Cluster.{Platform, security_context_constraints}
use nfs_provisioner_operator.Cluster.Laws.{IsLawful, HasHelpers}
use nfs_provisioner_operator.Resources.Scc.{scc_key, user_to_add, user_exists, build_scc}
use nfs_provisioner_operator.Resources.Scc.Users.{contains-user_to_add}
use nfs_provisioner_operator.Resources.All.{ensure_all}
use nfs_provisioner_operator.Resources.Origin.Constraints.{ensure_all_resources-Effect}

abbrev count : String → List String → ℕ
count u [] = zero
count u (x ∷ xs) = if x == u then suc (count u xs) else count u xs

-- In the constraints of the cluster, if they are there.
abbrev pub times_listed : String → Option SecurityContextConstraints → ℕ
times_listed u none = zero
times_listed u (some scc) = count u scc.users

count-append_one :
    (u v : String) (xs : List String)
    → count u (xs ++ v ∷ []) ≡ count u xs + (if v == u then 1 else 0)
count-append_one u v [] = ground arith
count-append_one u v (x ∷ xs) = ground (arith, count-append_one u v xs)

-- An account that the search does not find is not listed.
count-unlisted :
    (namespace : String) (users : List String)
    → user_exists namespace users ≡ false
    → count (user_to_add namespace) users ≡ zero
unfolding user_exists
count-unlisted namespace [] h = refl
count-unlisted namespace (x ∷ xs) h = ground (
  arith,
  eq_iff x (user_to_add namespace),
  contains-user_to_add namespace,
  count-unlisted namespace xs,
)

-- So adding it then keeps every user listed at most once.
count_added :
    (namespace u : String) (users : List String)
    → user_exists namespace users ≡ false
    → count u users ≤ 1
    → count u (users ++ user_to_add namespace ∷ []) ≤ 1
count_added namespace u users h le = ground (
  arith,
  count-append_one u (user_to_add namespace) users,
  count-unlisted namespace users h,
  eq_iff (user_to_add namespace) u,
)

module _ (P : Platform) (L : IsLawful P) (H : HasHelpers P) (m : NfsProvisioner) (u : String) where
  open L use {view}

  count_built :
      (kept : SecurityContextConstraints)
      → kept.users ≡ (build_scc P m).users
      → count u kept.users ≤ 1
  unfolding build_scc
  count_built kept e = rw e (ground arith)

  pub ensure_all_resources_count :
      (s : P.State)
      → times_listed u (view s security_context_constraints scc_key) ≤ 1
      → times_listed u (view (ensure_all P m s).1 security_context_constraints scc_key) ≤ 1
  ensure_all_resources_count s le =
      elim (ensure_all_resources-Effect P L H m s security_context_constraints scc_key) [
        | inl (inl same) ↦ rw same le
        | inl (inr (_, made)) ↦ rw (made.here) (
            count_built made.kept
              (made.stored.0 ∙ ap (λ (o : SecurityContextConstraints). o.users) made.built))
        | inr (_, user) ↦
            rw (user.is, user.added)
              (count_added m.metadata.namespace u user.old.users user.unlisted
                (subst (λ o. times_listed u o ≤ 1) user.was le))
      ]
