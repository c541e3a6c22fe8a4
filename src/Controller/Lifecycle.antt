-- ===== src/Controller/Lifecycle.antt =====
-- The life of a resource with the operator's finalizer, through runs and the writes of others.
use nfs_provisioner_operator.Kube.Meta.{NamespacedName}
use nfs_provisioner_operator.Cluster.{Platform, nfs_provisioner}
use nfs_provisioner_operator.Cluster.Laws.{IsLawful}
use nfs_provisioner_operator.Controller.Steps.{run}
use nfs_provisioner_operator.Controller.Marked.{IsMarked, Finalizes}

-- What the cluster goes through: runs, on the resource and on others, and what others write in
-- between, who do not take the finalizer of the resource away and do not remove it with the
-- finalizer on.
module _ (P : Platform) (L : IsLawful P) (n : NamespacedName) where
  open L use {view}

  pub data Course : P.State → P.State → Type 0 where
    stop : (s : P.State) → Course s s
    reconciled : (req : NamespacedName) (s t : P.State) → Course (run P req s).1 t → Course s t
    written :
        (s u t : P.State)
        → (IsMarked (view s nfs_provisioner n) → IsMarked (view u nfs_provisioner n))
        → Course u t
        → Course s t

  -- A run in the course finalizes the resource, which has the finalizer up to then.
  pub record IsFinalized (s t : P.State) : Type 0 where
    pub at : P.State
    pub before : Course s at
    pub marked : IsMarked (view at nfs_provisioner n)
    pub finalizes : Finalizes P n at
    pub after : Course (run P n at).1 t
