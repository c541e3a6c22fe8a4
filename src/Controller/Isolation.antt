-- ===== src/Controller/Isolation.antt =====
-- What runs on the resources of other namespaces leave alone.
use nfs_provisioner_operator.Base.{◌≡◌, ◌≢◌, refl, ◌∙◌, ap, sym, inl, inr, ◌⊎◌, String}
use nfs_provisioner_operator.Base.Lists.{Elem, All, All-Elem}
use nfs_provisioner_operator.Base.Exec.{found}
use nfs_provisioner_operator.Kube.Meta.{NamespacedName}
use nfs_provisioner_operator.Api.{NfsProvisioner}
use nfs_provisioner_operator.Cluster.{Kind, Platform, nfs_provisioner}
use nfs_provisioner_operator.Cluster.Laws.{IsLawful, HasHelpers, IsOther}
use nfs_provisioner_operator.Cluster.Growth.{Ref}
use nfs_provisioner_operator.Resources.Manager.{new_resource_manager_set}
use nfs_provisioner_operator.Resources.All.{managed}
use nfs_provisioner_operator.Controller.Steps.{run, start-found}
use nfs_provisioner_operator.Controller.Frame.{run-frame}
use nfs_provisioner_operator.Controller.History.{Runs, stop, next}

module _ (P : Platform) where
  -- All requests of the runs are of one sort.
  abbrev pub Each : (NamespacedName → Type 0) → (s t : P.State) → Runs P s t → Type 0
  Each Q s t (stop _) = Unit {0}
  Each Q s t (next req _ _ rest) = Q req × Each Q (run P req s).1 t rest

-- In the namespace, or outside all.
abbrev IsPlaced : String → Ref → Type 0
IsPlaced namespace r = (r.1.namespace ≡ namespace) ⊎ (r.1.namespace ≡ "")

managed-IsPlaced : (m : NfsProvisioner) → All (IsPlaced m.metadata.namespace) (managed m)
managed-IsPlaced m = (
  inr refl,
  (
    inl refl,
    (
      inl refl,
      (inr refl, (inr refl, (inl refl, (inl refl, (inl refl, (inl refl, (inr refl, tt))))))),
    ),
  ),
)

module _ (P : Platform) (L : IsLawful P) (H : HasHelpers P) (k : Kind) (n : NamespacedName)
    (placed : n.namespace ≢ "") where
  open L use {view, view-get}

  run-isolated :
      (req : NamespacedName) (s : P.State)
      → req.namespace ≢ n.namespace
      → view (run P req s).1 k n ≡ view s k n
  run-isolated req s apart = run-frame P L H req s k n differs unmanaged
    where
      differs : IsOther nfs_provisioner req k n
      differs q = apart (ap (λ (r : NamespacedName). r.namespace) (sym q.1))

      unmanaged :
          (m : NfsProvisioner)
          → (P.get nfs_provisioner req s).0 ≡ found m
          → ¬ Elem (k, n) (managed m)
      unmanaged m seen e =
          elim (All-Elem (IsPlaced m.metadata.namespace) (managed m) (k, n) (managed-IsPlaced m)
            e) [
              | inl h ↦ apart (
                  sym (
                    h
                    ∙ ap (λ (r : NamespacedName). r.namespace)
                        (start-found P (new_resource_manager_set P) req s L m seen).1))
              | inr h ↦ placed h
            ]

  -- Over any sequence of runs whose requests are all in other namespaces, whatever their outcomes,
  -- every object of a namespace, custom resources included, stays as it is, missing or not.
  pub Runs-isolated :
      (s t : P.State) (runs : Runs P s t)
      → Each P (λ req. req.namespace ≢ n.namespace) s t runs
      → view t k n ≡ view s k n
  Runs-isolated s t (stop _) each = refl
  Runs-isolated s t (next req _ _ rest) (apart, each) =
      Runs-isolated (run P req s).1 t rest each ∙ run-isolated req s apart
