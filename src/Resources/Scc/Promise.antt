-- ===== src/Resources/Scc/Promise.antt =====
-- What the manager of the constraints ensures.
use nfs_provisioner_operator.Base.{
  true, none, some, [], ◌∷◌, ◌++◌, ◌≡◌, refl, sym, ◌∙◌, ap, subst, inl,
}
use nfs_provisioner_operator.Base.Lists.{Elem, Elem-append_left}
use nfs_provisioner_operator.Base.Exec.{ok, found, failed, call_rule, returned_ok}
use nfs_provisioner_operator.Kube.Meta.{NamespacedName, key_of}
use nfs_provisioner_operator.Kube.Security.{SecurityContextConstraints}
use nfs_provisioner_operator.Api.{NfsProvisioner}
use nfs_provisioner_operator.Cluster.{
  Kind, Object, Platform, custom_resource_definition, security_context_constraints,
}
use nfs_provisioner_operator.Cluster.Laws.{View, IsLawful, HasHelpers, key, IsOther, settings}
use nfs_provisioner_operator.Cluster.Growth.{
  Ref, Growing, Growing-of_eq, Growing-trans, Growing-one, Grows-refl,
}
use nfs_provisioner_operator.Resources.Scc.{
  crd_key, scc_key, user_to_add, user_exists, build_scc, ensure_resource,
}
use nfs_provisioner_operator.Resources.Scc.Users.{user_exists-added, user_exists-grow}
use nfs_provisioner_operator.Resources.Scc.Rule.{
  with_user, after_crd, after_scc, scc_reply, scc_rule,
}

some_injective : (x y : SecurityContextConstraints) → some x ≡ some y → x ≡ y
some_injective x y p = cc

abbrev pub scc_ref : Ref
scc_ref = (security_context_constraints, scc_key)

-- The constraints exist, and have a user for the resource's namespace.
abbrev pub SccReady : NfsProvisioner → View → Type 0
SccReady m v =
    (scc : SecurityContextConstraints) × (v security_context_constraints scc_key ≡ some scc)
    × (user_exists m.metadata.namespace scc.users ≡ true)

pub SccReady-grow : (m : NfsProvisioner) (v w : View) → Growing v w → SccReady m v → SccReady m w
SccReady-grow m v w g (scc, here, listed) =
    let (more, there, sub) = g.at security_context_constraints scc_key scc here in
    (more, there, user_exists-grow m.metadata.namespace scc.users more.users sub.1 listed)

module _ (P : Platform) (L : IsLawful P) (H : HasHelpers P) (m : NfsProvisioner) where
  open P use {State, Error, is_not_found, get, create, update}
  open L use {view, view-get}

  pub view-after_crd : (s : State) → view (after_crd P s) ≡ view s
  view-after_crd s = view-get custom_resource_definition crd_key s

  pub view-after_scc : (s : State) → view (after_scc P s) ≡ view s
  view-after_scc s =
      view-get security_context_constraints scc_key (after_crd P s) ∙ view-after_crd s

  pub key-build_scc : key security_context_constraints (build_scc P m) ≡ scc_key
  unfolding build_scc
  key-build_scc = ap key_of (H.references_only m _)

  users-build_scc : (build_scc P m).users ≡ user_to_add m.metadata.namespace ∷ []
  unfolding build_scc
  users-build_scc = refl

  -- What is found is in the cluster.
  pub found-view :
      (s : State) (scc : SecurityContextConstraints)
      → scc_reply P s ≡ found scc
      → view (after_scc P s) security_context_constraints scc_key ≡ some scc
  found-view s scc e =
      ap (λ (v : View). v security_context_constraints scc_key)
        (view-get security_context_constraints scc_key (after_crd P s))
      ∙ L.get-found security_context_constraints scc_key (after_crd P s) scc e

  pub missing-view :
      (s : State) (e : Error)
      → scc_reply P s ≡ failed e
      → is_not_found e ≡ true
      → view s security_context_constraints scc_key ≡ none
  missing-view s e h p =
      ap (λ (v : View). v security_context_constraints scc_key) (sym (view-after_crd s))
      ∙ L.get-missing security_context_constraints scc_key (after_crd P s) e h p

  module _ (t : State) (scc : SecurityContextConstraints)
      (here : view t security_context_constraints scc_key ≡ some scc) where
    abbrev pub updated : State
    updated = (update security_context_constraints (with_user P m scc) t).1

    key-with_user : key security_context_constraints (with_user P m scc) ≡ scc_key
    key-with_user = L.key-view security_context_constraints scc_key t scc here

    -- A successful update leaves the constraints with the user added.
    pub updated_lem :
        (update security_context_constraints (with_user P m scc) t).0 ≡ none
        → (y : SecurityContextConstraints) × (view updated security_context_constraints scc_key
            ≡ some y)
          × (settings y ≡ settings scc)
          × (y.users ≡ scc.users ++ user_to_add m.metadata.namespace ∷ [])
    updated_lem done =
        let (y, e) =
          L.update-stays security_context_constraints (with_user P m scc) t done
            (L.held-view security_context_constraints scc_key t scc here) in
        let stored = L.update-done security_context_constraints (with_user P m scc) t y done e in
        (
          y,
          subst (λ n. view updated security_context_constraints n ≡ some y) key-with_user e,
          stored.1,
          stored.0,
        )

    pub updated-frame :
        (j : Kind) (i : NamespacedName)
        → IsOther security_context_constraints scc_key j i
        → view updated j i ≡ view t j i
    updated-frame j i other =
        L.update-other security_context_constraints (with_user P m scc) t j i
          (λ (p, q). other (p, q ∙ key-with_user))

    updated-grows :
        (update security_context_constraints (with_user P m scc) t).0 ≡ none
        → Growing (view t) (view updated)
    updated-grows done =
        Growing-one (view t) (view updated) security_context_constraints scc_key updated-frame
          λ x e.
            let (y, there, same, users) = updated_lem done in
            let is_scc : x ≡ scc = some_injective x scc (sym e ∙ here) in
            (
              y,
              there,
              (
                same ∙ ap settings (sym is_scc),
                λ u listed. subst (Elem u) (sym users) (
                    Elem-append_left u scc.users _
                      (subst (λ (o : SecurityContextConstraints). Elem u o.users) is_scc listed)),
              ),
            )

  pub scc-grows : (s : State) → Growing (view s) (view (ensure_resource P m s).1)
  scc-grows s =
      scc_rule P m s (λ p. Growing (view s) (view p.1))
        (λ e _. Growing-of_eq _ _ (view-after_crd s))
        (λ scc _ _. Growing-of_eq _ _ (view-after_scc s))
        (λ scc e _.
          call_rule (λ p. Growing (view s) (view p.1))
            (update security_context_constraints (with_user P m scc)) (after_scc P s)
            (λ done.
              Growing-trans _ _ _ (Growing-of_eq _ _ (view-after_scc s))
                (updated-grows (after_scc P s) scc (found-view s scc e) done))
            (λ x bad. Growing-of_eq _ _ (
              L.update-failed security_context_constraints (with_user P m scc) _ x bad
              ∙ view-after_scc s)))
        (λ e _ _. record {
          at = λ k n x here. (
            x,
            L.create-keeps security_context_constraints (build_scc P m) (after_scc P s) k n x
                (ap (λ (v : View). v k n) (view-after_scc s) ∙ here),
            Grows-refl k x,
          );
        })
        (λ e _ _. Growing-of_eq _ _ (view-after_scc s))

  pub scc-frame :
      (s : State) (k : Kind) (n : NamespacedName)
      → ¬ Elem (k, n) (scc_ref ∷ [])
      → view (ensure_resource P m s).1 k n ≡ view s k n
  scc-frame s k n other =
      scc_rule P m s (λ p. view p.1 k n ≡ view s k n)
        (λ e _. ap (λ (v : View). v k n) (view-after_crd s)) (λ scc _ _. same)
        (λ scc e _. updated-frame _ scc (found-view s scc e) k n differs ∙ same)
        (λ e _ _.
          L.create-other security_context_constraints (build_scc P m) (after_scc P s) k n
            (λ q. differs (q.0, q.1 ∙ key-build_scc))
          ∙ same)
        (λ e _ _. same)
    where
      same : view (after_scc P s) k n ≡ view s k n
      same = ap (λ (v : View). v k n) (view-after_scc s)

      differs : IsOther security_context_constraints scc_key k n
      differs q = other (inl (cc (q.0, q.1)))

  pub scc-quiet : (s : State) → SccReady m (view s) → view (ensure_resource P m s).1 ≡ view s
  scc-quiet s (scc, here, listed) =
      scc_rule P m s (λ p. view p.1 ≡ view s) (λ e _. view-after_crd s) (λ o _ _. view-after_scc s)
        (λ o e new.
          let same : o ≡ scc = some_injective o scc (
            sym (found-view s o e)
            ∙ ap (λ (v : View). v security_context_constraints scc_key) (view-after_scc s)
            ∙ here) in
          cc (
            ap (λ (x : SecurityContextConstraints). user_exists m.metadata.namespace x.users) same))
        (λ e h p. cc (here, missing-view s e h p)) (λ e _ _. view-after_scc s)

  -- With the definition in the cluster, success leaves the constraints ready.
  pub scc-makes :
      (s : State) (crd : Object custom_resource_definition)
      → (get custom_resource_definition crd_key s).0 ≡ found crd
      → (ensure_resource P m s).0 ≡ ok tt
      → SccReady m (view (ensure_resource P m s).1)
  scc-makes s crd seen =
      scc_rule P m s (λ p. p.0 ≡ ok tt → SccReady m (view p.1)) (λ e missed h. cc)
        (λ scc e old h. (scc, found-view s scc e, old))
        (λ scc e new h.
          let (y, there, _, users) = updated_lem _ scc (found-view s scc e) (returned_ok _ h) in
          (y, there, rw users (user_exists-added m.metadata.namespace scc.users)))
        (λ e _ _ h.
          let (x, there, stored) =
            L.create-done security_context_constraints (build_scc P m) (after_scc P s)
              (returned_ok _ h) in
          (
            x,
            subst
                (λ n.
                  view (create security_context_constraints (build_scc P m) (after_scc P s)).1
                    security_context_constraints n
                  ≡ some x)
                key-build_scc there,
            rw (stored.0 ∙ users-build_scc) (user_exists-added m.metadata.namespace []),
          ))
        (λ e _ _ h. cc)
