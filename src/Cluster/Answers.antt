-- ===== src/Cluster/Answers.antt =====
-- A cluster that answers: no call fails for a reason that lies outside the objects.
use nfs_provisioner_operator.Base.{true, none, some, ◌≡◌}
use nfs_provisioner_operator.Base.Exec.{failed}
use nfs_provisioner_operator.Kube.Meta.{NamespacedName}
use nfs_provisioner_operator.Cluster.{Kind, Object, meta, Platform}
use nfs_provisioner_operator.Cluster.Laws.{IsLawful, key}

-- As long as the state is up, a read fails only on an object that is missing, a creation only on
-- one that exists, an update or a deletion only on one that is missing.
pub record Answers (P : Platform) (L : IsLawful P) : Type 1 where
  pub IsUp : P.State → Type 0
  pub get-IsUp : (k : Kind) (n : NamespacedName) (s : P.State) → IsUp s → IsUp (P.get k n s).1
  pub get-answers :
      (k : Kind) (n : NamespacedName) (s : P.State) (e : P.Error)
      → IsUp s
      → (P.get k n s).0 ≡ failed e
      → P.is_not_found e ≡ true
  pub create-IsUp : (k : Kind) (o : Object k) (s : P.State) → IsUp s → IsUp (P.create k o s).1
  pub create-answers :
      (k : Kind) (o : Object k) (s : P.State)
      → IsUp s
      → (meta k o).deletion_timestamp ≡ none
      → L.view s k (key k o) ≡ none
      → (P.create k o s).0 ≡ none
  pub update-IsUp : (k : Kind) (o : Object k) (s : P.State) → IsUp s → IsUp (P.update k o s).1
  pub update-answers :
      (k : Kind) (o x : Object k) (s : P.State)
      → IsUp s
      → L.view s k (key k o) ≡ some x
      → (P.update k o s).0 ≡ none
  pub delete-IsUp : (k : Kind) (o : Object k) (s : P.State) → IsUp s → IsUp (P.delete k o s).1
  pub delete-answers :
      (k : Kind) (o x : Object k) (s : P.State)
      → IsUp s
      → L.view s k (key k o) ≡ some x
      → (P.delete k o s).0 ≡ none
