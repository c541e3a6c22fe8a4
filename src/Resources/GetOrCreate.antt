-- ===== src/Resources/GetOrCreate.antt =====
-- The specification that the managers implement: read the object, and create it if it is missing.
use nfs_provisioner_operator.Base.{
  [], ◌∷◌, ◌≡◌, ◌≢◌, refl, ◌∙◌, subst, inl, inr, Bool-cases, true, if◌then◌else◌,
}
use nfs_provisioner_operator.Base.Exec.{
  Outcome, ok, err, panic, Exec, Reply, found, failed, ask, call, returned_ok, lift, pure, fail,
  continue, ◌>>=◌,
}
use nfs_provisioner_operator.Kube.Meta.{NamespacedName}
use nfs_provisioner_operator.Cluster.{Kind, Object, Platform}
use nfs_provisioner_operator.Cluster.Laws.{IsLawful, key}
use nfs_provisioner_operator.Cluster.Growth.{
  Present, Growing, Growing-of_eq, Grows-refl, Present-grow,
}
use nfs_provisioner_operator.Resources.Ensure.{Ensures}

module _ (P : Platform) where
  open P use {State, Error, is_not_found, get, create}

  abbrev pub on_reply :
      (k : Kind) (n : NamespacedName)
      → Outcome Error (Object k)
      → Reply Error (Object k)
      → Exec State Error (Unit {0})
  on_reply k n build (found _) = pure tt
  on_reply k n build (failed e) =
      if is_not_found e then (do o ← lift build; call (create k o)) else fail e

  -- `build` has no value where it panics.
  unfoldable pub get_or_create :
      (k : Kind) → NamespacedName → Outcome Error (Object k) → Exec State Error (Unit {0})
  get_or_create k n build = do reply ← ask (get k n); on_reply k n build reply

  module _ (k : Kind) (n : NamespacedName) (build : Outcome Error (Object k))
      (R : Outcome Error (Unit {0}) × State → Type 0) where
    create_rule :
        (b : Outcome Error (Object k)) (t : State)
        → build ≡ b
        → ((r : Outcome Error (Unit {0})) → r ≢ ok tt → R (r, t))
        → ((o : Object k) → build ≡ ok o → R (call (create k o) t))
        → R (continue b (λ o. call (create k o)) t)
    create_rule (ok o) t e stop write = write o e
    create_rule (err x) t e stop write = stop (err x) (λ p. cc)
    create_rule panic t e stop write = stop panic (λ p. cc)

    -- It ends where the object is found, at a failure before any write, or by a creation.
    pub get_or_create_rule :
        (s : State)
        → ((o : Object k) → (get k n s).0 ≡ found o → R (ok tt, (get k n s).1))
        → ((r : Outcome Error (Unit {0})) → r ≢ ok tt → R (r, (get k n s).1))
        → ((e : Error) (o : Object k)
            → (get k n s).0 ≡ failed e
            → is_not_found e ≡ true
            → build ≡ ok o
            → R (call (create k o) (get k n s).1))
        → R (get_or_create k n build s)
    unfolding get_or_create
    get_or_create_rule s seen stop write = go (get k n s).0 refl
      where
        go :
            (reply : Reply Error (Object k))
            → (get k n s).0 ≡ reply
            → R (continue (ok reply) (on_reply k n build) (get k n s).1)
        go (found o) e = seen o e
        go (failed x) e = elim (Bool-cases (is_not_found x)) [
          | inl p ↦ rw p (create_rule build (get k n s).1 refl stop (λ o b. write x o e p b))
          | inr p ↦ rw p (stop (err x) (λ q. cc))
        ]

module _ (P : Platform) (L : IsLawful P) (k : Kind) (n : NamespacedName)
    (build : Outcome P.Error (Object k))
    (named_n : (o : Object k) → build ≡ ok o → key k o ≡ n) where
  open P use {State, Error, is_not_found, get, create}
  open L use {view, view-get}

  -- Every way of ending grows the view, writes the one object, and leaves it present on success.
  pub Ensures-get_or_create :
      Ensures P L (get_or_create P k n build) ((k, n) ∷ []) (λ v. Present v (k, n))
  Ensures-get_or_create = record {
    grows = λ s.
        get_or_create_rule P k n build (λ p. Growing (view s) (view p.1)) s
          (λ _ _. Growing-of_eq _ _ (view-get k n s)) (λ _ _. Growing-of_eq _ _ (view-get k n s))
          (λ _ o _ _ _. record {
            at = λ j i x e. (x, L.create-keeps k o _ j i x (rw view-get e), Grows-refl j x);
          });
    frame = λ s j i other.
        get_or_create_rule P k n build (λ p. view p.1 j i ≡ view s j i) s (λ _ _. rw view-get)
          (λ _ _. rw view-get)
          (λ _ o _ _ b.
            L.create-other k o _ j i (λ m. other (inl (cc (m.0, m.1, named_n o b)))) ∙ rw view-get);
    makes = λ s.
        get_or_create_rule P k n build (λ p. p.0 ≡ ok tt → Present (view p.1) (k, n)) s
          (λ o e _. (o, rw view-get (L.get-found k n s o e))) (λ r no h. absurd (no h))
          (λ _ o _ _ b h.
            subst (λ i. Present (view (create k o (get k n s).1).1) (k, i)) (named_n o b)
              (let (x, e, _) = L.create-done k o _ (returned_ok _ h) in (x, e)));
    stable = λ v w g. Present-grow v w (k, n) g;
    quiet = λ s (o, here).
        get_or_create_rule P k n build (λ p. view p.1 ≡ view s) s (λ _ _. view-get k n s)
          (λ _ _. view-get k n s) (λ e _ p q _. cc (here, L.get-missing k n s e p q));
  }
