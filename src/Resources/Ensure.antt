-- ===== src/Resources/Ensure.antt =====
-- What a manager promises: the abstract specification, and its rule for sequences.
use nfs_provisioner_operator.Base.{List, [], ◌++◌, ◌≡◌, refl, ◌∙◌, sym, subst}
use nfs_provisioner_operator.Base.Lists.{Elem, Elem-append_left, Elem-append_right}
use nfs_provisioner_operator.Base.Exec.{ok, Exec, pure, continue_state, continue_ok, ◌>>◌}
use nfs_provisioner_operator.Kube.Meta.{NamespacedName}
use nfs_provisioner_operator.Cluster.{Kind, Platform}
use nfs_provisioner_operator.Cluster.Laws.{View, IsLawful}
use nfs_provisioner_operator.Cluster.Growth.{Ref, Growing, Growing-refl, Growing-trans}

module _ (P : Platform) (L : IsLawful P) where
  open P use {State, Error}
  open L use {view}

  -- `x` writes only objects of the list, and none that exists; where it succeeds, `Q` holds; and
  -- where `Q` holds already, it writes nothing.
  pub record Ensures (x : Exec State Error (Unit {0})) (touched : List Ref) (Q : View → Type 0)
      : Type 0 where
    pub grows : (s : State) → Growing (view s) (view (x s).1)
    pub frame :
        (s : State) (k : Kind) (n : NamespacedName)
        → ¬ Elem (k, n) touched
        → view (x s).1 k n ≡ view s k n
    pub makes : (s : State) → (x s).0 ≡ ok tt → Q (view (x s).1)
    pub stable : (v w : View) → Growing v w → Q v → Q w
    pub quiet : (s : State) → Q (view s) → view (x s).1 ≡ view s

  pub Ensures-pure : Ensures (pure tt) [] (λ v. Unit {0})
  Ensures-pure = record {
    grows = λ s. Growing-refl (view s);
    frame = λ s k n h. refl;
    makes = λ s h. tt;
    stable = λ v w g q. tt;
    quiet = λ s q. refl;
  }

  module _ (x y : Exec State Error (Unit {0})) (ks ls : List Ref) (Q R : View → Type 0) where
    pub Ensures-then :
        Ensures x ks Q → Ensures y ls R → Ensures (x >> y) (ks ++ ls) (λ v. Q v × R v)
    Ensures-then ex ey = record {
      grows = λ s.
          continue_state (λ t. Growing (view s) (view t)) (λ _. y) (x s).0 (x s).1 (ex.grows s)
            λ _ _. Growing-trans _ _ _ (ex.grows s) (ey.grows (x s).1);
      frame = λ s k n h.
          let first : view (x s).1 k n ≡ view s k n =
            ex.frame s k n (λ m. h (Elem-append_left (k, n) ks ls m)) in
          continue_state (λ t. view t k n ≡ view s k n) (λ _. y) (x s).0 (x s).1 first
            λ _ _. ey.frame (x s).1 k n (λ m. h (Elem-append_right (k, n) ks ls m)) ∙ first;
      makes = λ s h.
          let (u, hx, hy) = continue_ok (λ _. y) (x s).0 (x s).1 tt h in
          rw hx (ex.stable _ _ (ey.grows (x s).1) (ex.makes s hx), ey.makes (x s).1 hy);
      stable = λ v w g q. (ex.stable v w g q.0, ey.stable v w g q.1);
      quiet = λ s q.
          let first : view (x s).1 ≡ view s = ex.quiet s q.0 in
          continue_state (λ t. view t ≡ view s) (λ _. y) (x s).0 (x s).1 first
            λ _ _. ey.quiet (x s).1 (subst R (sym first) q.1) ∙ first;
    }
