-- ===== src/Resources/Origin/Constraints.antt =====
-- What the manager of the constraints makes, and what `EnsureAllResources` does to every object.
use nfs_provisioner_operator.Base.{
  false, none, some, [], ◌∷◌, ◌++◌, ◌≡◌, refl, sym, ◌∙◌, ap, subst, inl, inr, ◌⊎◌, arith,
}
use nfs_provisioner_operator.Base.Lists.{Elem}
use nfs_provisioner_operator.Base.Exec.{ok, ok_injective, found, call_rule}
use nfs_provisioner_operator.Kube.Meta.{NamespacedName}
use nfs_provisioner_operator.Kube.Security.{SecurityContextConstraints}
use nfs_provisioner_operator.Api.{NfsProvisioner}
use nfs_provisioner_operator.Cluster.{Kind, Platform, security_context_constraints}
use nfs_provisioner_operator.Cluster.Laws.{settings, View, IsLawful, HasHelpers, key}
use nfs_provisioner_operator.Cluster.Growth.{Ref}
use nfs_provisioner_operator.Resources.Scc.{
  scc_key, user_to_add, user_exists, build_scc, ensure_resource,
}
use nfs_provisioner_operator.Resources.Scc.Rule.{with_user, after_scc, scc_reply, scc_rule}
use nfs_provisioner_operator.Resources.Scc.Promise.{
  scc_ref, view-after_crd, view-after_scc, key-build_scc, found-view, missing-view, updated_lem,
  updated-frame,
}
use nfs_provisioner_operator.Resources.All.{
  rest_managed, ensure_all, after_constraints, ensure_all_rule, Ensures-rest,
}
use nfs_provisioner_operator.Resources.Origin.{same_or_IsOther, Origin, Origin-trans, created}
use nfs_provisioner_operator.Resources.Origin.Managers.{Builds-rest}

-- The constraints had no user that the search finds, and now have the account as their last user.
pub record UserAdded (m : NfsProvisioner) (v w : View) : Type 0 where
  pub old : SecurityContextConstraints
  pub was : v security_context_constraints scc_key ≡ some old
  pub unlisted : user_exists m.metadata.namespace old.users ≡ false
  pub new : SecurityContextConstraints
  pub is : w security_context_constraints scc_key ≡ some new
  pub unchanged : settings new ≡ settings old
  pub added : new.users ≡ old.users ++ user_to_add m.metadata.namespace ∷ []

module _ (P : Platform) (m : NfsProvisioner) where
  -- What may become of an object: it stays, it is made, or it is the constraints with a user more.
  abbrev pub Effect : View → View → (k : Kind) → NamespacedName → Type 0
  Effect v w k n = Origin P m v w k n ⊎ ((◌≡◌ {A = Ref} (k, n) scc_ref) × UserAdded m v w)

module _ (P : Platform) (L : IsLawful P) (H : HasHelpers P) (m : NfsProvisioner) where
  open P use {State, Error, update, create, is_not_found}
  open L use {view}

  -- The constraints that were found, with the user added.
  scc_added :
      (s : State) (scc : SecurityContextConstraints)
      → scc_reply P s ≡ found scc
      → user_exists m.metadata.namespace scc.users ≡ false
      → (update security_context_constraints (with_user P m scc) (after_scc P s)).0 ≡ none
      → UserAdded m
          (view s)
          (view (update security_context_constraints (with_user P m scc) (after_scc P s)).1)
  scc_added s scc e new done =
      let (y, there, same, users) =
        updated_lem P L H m (after_scc P s) scc (found-view P L H m s scc e) done in
      record {
        old = scc;
        was =
            ap (λ (v : View). v security_context_constraints scc_key)
              (sym (view-after_scc P L H m s))
            ∙ found-view P L H m s scc e;
        unlisted = new;
        new = y;
        is = there;
        unchanged = same;
        added = users;
      }

  scc-Effect :
      (s : State) (k : Kind) (n : NamespacedName)
      → Effect P m (view s) (view (ensure_resource P m s).1) k n
  scc-Effect s k n =
      scc_rule P m s (λ p. Effect P m (view s) (view p.1) k n)
        (λ e _. inl (inl (ap (λ (v : View). v k n) (view-after_crd P L H m s))))
        (λ scc _ _. inl (inl same))
        (λ scc e new.
          call_rule (λ p. Effect P m (view s) (view p.1) k n)
            (update security_context_constraints (with_user P m scc)) (after_scc P s)
            (λ done. elim (same_or_IsOther security_context_constraints scc_key k n) [
              | inl this ↦ inr (sym this, scc_added s scc e new done)
              | inr other ↦ inl (
                  inl (
                    updated-frame P L H m (after_scc P s) scc (found-view P L H m s scc e) k n other
                    ∙ same))
            ])
            (λ x bad. inl (
              inl (
                ap (λ (v : View). v k n)
                  (L.update-failed security_context_constraints (with_user P m scc) _ x bad)
                ∙ same))))
        (λ e missed is_missing.
          call_rule (λ p. Effect P m (view s) (view p.1) k n)
            (create security_context_constraints (build_scc P m)) (after_scc P s)
            (λ done. inl (
              Origin-trans P m (view s) (view (after_scc P s)) _ k n (inl same) (
                created P m L security_context_constraints scc_key (ok (build_scc P m))
                  (λ o b.
                    subst (λ c. key security_context_constraints c ≡ scc_key) (ok_injective _ o b)
                      (key-build_scc P L H m))
                  (λ o b. sym (ok_injective _ o b)) (after_scc P s) (build_scc P m) refl
                  (ap (λ (v : View). v security_context_constraints scc_key)
                      (view-after_scc P L H m s)
                    ∙ missing-view P L H m s e missed is_missing)
                  done k n)))
            (λ x bad. inl (
              inl (
                ap (λ (v : View). v k n)
                  (L.create-failed security_context_constraints (build_scc P m) _ x bad)
                ∙ same))))
        (λ e _ _. inl (inl same))
    where
      same : view (after_scc P s) k n ≡ view s k n
      same = ap (λ (v : View). v k n) (view-after_scc P L H m s)

  unmanaged_scc : ¬ Elem scc_ref (rest_managed m)
  unmanaged_scc e = ground arith

  -- Whether `EnsureAllResources` succeeds, fails or panics, each object of the cluster stays as it
  -- is, or was missing and is what the server stored of the object of its kind and name that the
  -- operator builds, or is the constraints, in which the search had found no user and which have
  -- the account of the resource's namespace as one more user, the last, and otherwise the same
  -- settings.
  pub ensure_all_resources-Effect :
      (s : State) (k : Kind) (n : NamespacedName)
      → Effect P m (view s) (view (ensure_all P m s).1) k n
  ensure_all_resources-Effect s k n =
      ensure_all_rule P L H m (λ t. Effect P m (view s) (view t) k n) s (scc-Effect s k n)
        (elim (scc-Effect s k n) [
          | inl origin ↦
              inl (Origin-trans P m (view s) (view t) _ k n origin ((Builds-rest P L H m).at t k n))
          | inr (this, user) ↦ inr (
            this,
            record {
              old = user.old;
              was = user.was;
              unlisted = user.unlisted;
              new = user.new;
              is =
                  (Ensures-rest P L H m).frame t security_context_constraints scc_key unmanaged_scc
                  ∙ user.is;
              unchanged = user.unchanged;
              added = user.added;
            },
          )
        ])
    where
      t : State
      t = after_constraints P m s
