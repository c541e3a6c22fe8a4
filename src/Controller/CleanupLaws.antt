-- ===== src/Controller/CleanupLaws.antt =====
-- What `deleteExternalResources` deletes, and what it overlooks.
use nfs_provisioner_operator.Base.{
  true, none, some, List, [], ◌∷◌, ◌≡◌, refl, sym, ◌∙◌, ap, subst, inl, inr,
}
use nfs_provisioner_operator.Base.Lists.{Elem}
use nfs_provisioner_operator.Base.Exec.{
  Outcome, ok, Exec, Reply, found, failed, call, returned_ok, continue, continue_state, continue_ok,
}
use nfs_provisioner_operator.Kube.Meta.{NamespacedName}
use nfs_provisioner_operator.Cluster.{
  Kind, Object, meta, Platform, cluster_role, cluster_role_binding,
}
use nfs_provisioner_operator.Cluster.Laws.{View, IsLawful, IsOther, key}
use nfs_provisioner_operator.Cluster.Growth.{Ref}
use nfs_provisioner_operator.Controller.Cleanup.{
  cluster_role_key, cluster_role_binding_key, delete_if_found, delete_external_resources,
}

-- The objects that it may delete.
abbrev pub external : List Ref
external = (cluster_role, cluster_role_key) ∷ (cluster_role_binding, cluster_role_binding_key) ∷ []

module _ (P : Platform) (L : IsLawful P) where
  open P use {State, Error, get, delete, is_not_found}
  open L use {view, view-get}

  -- The read of the object succeeds, or says that it is missing.
  abbrev pub ReadsWell : (k : Kind) → NamespacedName → State → Type 0
  ReadsWell k n s = (e : Error) → (get k n s).0 ≡ failed e → is_not_found e ≡ true

  -- No finalizer holds the object back.
  abbrev pub IsFree : (k : Kind) → NamespacedName → State → Type 0
  IsFree k n s = (o : Object k) → view s k n ≡ some o → (meta k o).finalizers ≡ []

  module _ (k : Kind) (n : NamespacedName) (s : State) where
    abbrev pub after_read : State
    after_read = (get k n s).1

    pub delete_if_found_rule :
        (R : Outcome Error (Unit {0}) × State → Type 0)
        → ((o : Object k)
            → (get k n s).0 ≡ found o
            → view s k n ≡ some o
            → key k o ≡ n
            → R (call (delete k o) after_read))
        → ((e : Error) → (get k n s).0 ≡ failed e → R (ok tt, after_read))
        → R (delete_if_found P k n s)
    unfolding delete_if_found
    delete_if_found_rule R seen missed = by_reply (get k n s).0 refl
      where
        by_reply :
            (reply : Reply Error (Object k))
            → (get k n s).0 ≡ reply
            → R (
                continue
                  (ok reply)
                  (λ x. elim x [ found o ↦ call (delete k o) | failed _ ↦ λ t. (ok tt, t) ])
                  after_read)
        by_reply (found o) e =
            let here = L.get-found k n s o e in seen o e here (L.key-view k n s o here)
        by_reply (failed x) e = missed x e

    delete_if_found-frame :
        (j : Kind) (i : NamespacedName)
        → IsOther k n j i
        → view (delete_if_found P k n s).1 j i ≡ view s j i
    delete_if_found-frame j i other =
        delete_if_found_rule (λ p. view p.1 j i ≡ view s j i)
          (λ o _ _ named_n.
            L.delete-other k o after_read j i (λ q. other (q.0, q.1 ∙ named_n))
            ∙ ap (λ (v : View). v j i) (view-get k n s))
          (λ e _. ap (λ (v : View). v j i) (view-get k n s))

    delete_if_found-gone :
        ReadsWell k n s
        → IsFree k n s
        → (delete_if_found P k n s).0 ≡ ok tt
        → view (delete_if_found P k n s).1 k n ≡ none
    delete_if_found-gone reads free =
        delete_if_found_rule (λ p. p.0 ≡ ok tt → view p.1 k n ≡ none)
          (λ o _ here named_n h.
            subst (λ i. view (delete k o after_read).1 k i ≡ none) named_n
              (L.delete-done k o after_read (returned_ok _ h)
                (subst (λ i. view after_read k i ≡ some o) (sym named_n)
                  (ap (λ (v : View). v k n) (view-get k n s) ∙ here))
                (free o here)))
          (λ e missed h.
            ap (λ (v : View). v k n) (view-get k n s)
            ∙ L.get-missing k n s e missed (reads e missed))

    -- A read that fails for whatever reason counts as success, and deletes nothing.
    delete_if_found_missed :
        (e : Error)
        → (get k n s).0 ≡ failed e
        → ((delete_if_found P k n s).0 ≡ ok tt) × (view (delete_if_found P k n s).1 ≡ view s)
    delete_if_found_missed e missed =
        delete_if_found_rule (λ p. (p.0 ≡ ok tt) × (view p.1 ≡ view s)) (λ o seen _ _. cc)
          (λ _ _. (refl, view-get k n s))

  abbrev pub after_role : State → State
  after_role s = (delete_if_found P cluster_role cluster_role_key s).1

  second : Exec State Error (Unit {0})
  second = delete_if_found P cluster_role_binding cluster_role_binding_key

  -- The cleanup changes no object but the cluster role and its binding.
  pub delete_external_resources-frame :
      (s : State) (k : Kind) (n : NamespacedName)
      → ¬ Elem (k, n) external
      → view (delete_external_resources P s).1 k n ≡ view s k n
  unfolding delete_external_resources second
  delete_external_resources-frame s k n other =
      continue_state (λ t. view t k n ≡ view s k n) (λ _. second)
        (delete_if_found P cluster_role cluster_role_key s).0 (after_role s) first
        (λ _ _.
          delete_if_found-frame cluster_role_binding cluster_role_binding_key (after_role s) k n
            (λ q. other (inr (inl (cc (q.0, q.1)))))
          ∙ first)
    where
      first : view (after_role s) k n ≡ view s k n
      first =
          delete_if_found-frame cluster_role cluster_role_key s k n
            (λ q. other (inl (cc (q.0, q.1))))

  -- If the cleanup succeeds, its two reads fail only on missing objects, and no finalizer holds the
  -- cluster role and its binding back, then both are gone.
  pub delete_external_resources-gone :
      (s : State)
      → ReadsWell cluster_role cluster_role_key s
      → ReadsWell cluster_role_binding cluster_role_binding_key (after_role s)
      → IsFree cluster_role cluster_role_key s
      → IsFree cluster_role_binding cluster_role_binding_key s
      → (delete_external_resources P s).0 ≡ ok tt
      → (view (delete_external_resources P s).1 cluster_role cluster_role_key ≡ none)
        × (view (delete_external_resources P s).1 cluster_role_binding cluster_role_binding_key
            ≡ none)
  unfolding delete_external_resources second
  delete_external_resources-gone s reads_role reads_binding free_role free_binding h =
      let (u, first, then) =
        continue_ok (λ _. second) (delete_if_found P cluster_role cluster_role_key s).0
          (after_role s) tt h in
      rw first (
        delete_if_found-frame cluster_role_binding cluster_role_binding_key (after_role s)
              cluster_role cluster_role_key (λ q. cc (q.0))
            ∙ delete_if_found-gone cluster_role cluster_role_key s reads_role free_role first,
        delete_if_found-gone cluster_role_binding cluster_role_binding_key (after_role s)
            reads_binding
            (λ o here. free_binding o (
              sym (
                delete_if_found-frame cluster_role cluster_role_key s cluster_role_binding
                  cluster_role_binding_key (λ q. cc (q.0)))
              ∙ here))
            then,
      )

  -- If the cleanup's read of the cluster role fails, the cleanup leaves the role as it is.
  pub delete_external_resources-overlooks :
      (s : State) (e : Error)
      → (get cluster_role cluster_role_key s).0 ≡ failed e
      → view (delete_external_resources P s).1 cluster_role cluster_role_key
        ≡ view s cluster_role cluster_role_key
  unfolding delete_external_resources second
  delete_external_resources-overlooks s e missed =
      let (done, same) = delete_if_found_missed cluster_role cluster_role_key s e missed in
      rw done (
        delete_if_found-frame cluster_role_binding cluster_role_binding_key (after_role s)
          cluster_role cluster_role_key (λ q. cc (q.0))
        ∙ ap (λ (v : View). v cluster_role cluster_role_key) same)
