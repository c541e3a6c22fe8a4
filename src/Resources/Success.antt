-- ===== src/Resources/Success.antt =====
-- The managers succeed in a cluster that answers.
use nfs_provisioner_operator.Base.{none, some, ◌≡◌, refl, sym, ◌∙◌, ap, subst}
use nfs_provisioner_operator.Base.Exec.{
  Outcome, ok, Exec, Reply, found, failed, continue, call, ◌>>◌,
}
use nfs_provisioner_operator.Kube.Meta.{NamespacedName}
use nfs_provisioner_operator.Cluster.{Kind, Object, meta, Platform}
use nfs_provisioner_operator.Cluster.Laws.{View, IsLawful, key}
use nfs_provisioner_operator.Cluster.Answers.{Answers}
use nfs_provisioner_operator.Resources.GetOrCreate.{get_or_create, on_reply}

module _ (P : Platform) (L : IsLawful P) (A : Answers P L) where
  open P use {State, Error, get, create, update}
  open L use {view, view-get}
  open A use {IsUp}

  abbrev pub Fine : Outcome Error (Unit {0}) × State → Type 0
  Fine p = (p.0 ≡ ok tt) × IsUp p.1

  -- It succeeds whenever the cluster is up, and leaves it so.
  abbrev pub Works : Exec State Error (Unit {0}) → Type 0
  Works x = (s : State) → IsUp s → Fine (x s)

  pub continue-Fine :
      (y : Exec State Error (Unit {0})) (r : Outcome Error (Unit {0})) (t : State)
      → r ≡ ok tt
      → Fine (y t)
      → Fine (continue r (λ _. y) t)
  continue-Fine y r t first next = rw first next

  pub Works-then : (x y : Exec State Error (Unit {0})) → Works x → Works y → Works (x >> y)
  Works-then x y wx wy s up =
      let (first, up') = wx s up in continue-Fine y (x s).0 (x s).1 first (wy (x s).1 up')

  pub create-Fine :
      (k : Kind) (o : Object k) (s : State)
      → IsUp s
      → (meta k o).deletion_timestamp ≡ none
      → view s k (key k o) ≡ none
      → Fine (call (create k o) s)
  create-Fine k o s up fresh missing =
      (rw (A.create-answers k o s up fresh missing), A.create-IsUp k o s up)

  pub update-Fine :
      (k : Kind) (o x : Object k) (n : NamespacedName) (s : State)
      → IsUp s
      → key k o ≡ n
      → view s k n ≡ some x
      → Fine (call (update k o) s)
  update-Fine k o x n s up named_n there = (
    rw (A.update-answers k o x s up (subst (λ i. view s k i ≡ some x) (sym named_n) there)),
    A.update-IsUp k o s up,
  )

  -- To read an object and create it if it is missing works, if the new object is not marked.
  pub Works-get_or_create :
      (k : Kind) (n : NamespacedName) (build : Outcome Error (Object k)) (o : Object k)
      → build ≡ ok o
      → key k o ≡ n
      → (meta k o).deletion_timestamp ≡ none
      → Works (get_or_create P k n build)
  unfolding get_or_create
  Works-get_or_create k n build o built named_n fresh s up = by_reply (get k n s).0 refl
    where
      by_reply :
          (reply : Reply Error (Object k))
          → (get k n s).0 ≡ reply
          → Fine (on_reply P k n build reply (get k n s).1)
      by_reply (found x) e = (refl, A.get-IsUp k n s up)
      by_reply (failed x) e =
          rw (A.get-answers k n s x up e, built)
            (create-Fine k o (get k n s).1 (A.get-IsUp k n s up) fresh (
              subst (λ i. view (get k n s).1 k i ≡ none) (sym named_n)
                (ap (λ (v : View). v k n) (view-get k n s)
                  ∙ L.get-missing k n s x e (A.get-answers k n s x up e))))
