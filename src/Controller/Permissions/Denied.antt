-- ===== src/Controller/Permissions/Denied.antt =====
-- What the permissions that are missing keep the operator from, over many runs.
use nfs_provisioner_operator.Base.{false, ◌≡◌, ◌∙◌, refl, arith}
use nfs_provisioner_operator.Kube.Meta.{NamespacedName}
use nfs_provisioner_operator.Cluster.{Platform, security_context_constraints}
use nfs_provisioner_operator.Cluster.Laws.{IsLawful, HasHelpers}
use nfs_provisioner_operator.Resources.Skips.{ensure_all_resources-skips}
use nfs_provisioner_operator.Controller.History.{Runs, Runs_rule}
use nfs_provisioner_operator.Controller.Permissions.{markers, guard}
use nfs_provisioner_operator.Controller.Permissions.Guarded.{guard-IsLawful, guard-HasHelpers}

module _ (P : Platform) (L : IsLawful P) (H : HasHelpers P) (forbidden : P.Error)
    (visible : P.is_not_found forbidden ≡ false) where
  open L use {view}

  -- With a client that answers every call outside the permissions that the markers ask for with an
  -- error, which is not that of a missing object, and does nothing, any sequence of runs leaves all
  -- security context constraints as they are, also where their definition exists.
  pub Runs-unconstrained :
      (n : NamespacedName) (s t : P.State)
      → Runs (guard markers P forbidden) s t
      → view t security_context_constraints n ≡ view s security_context_constraints n
  unfolding guard-IsLawful
  Runs-unconstrained n s t runs =
      Runs_rule (guard markers P forbidden) (guard-IsLawful markers P L forbidden visible)
        (guard-HasHelpers markers P forbidden H) security_context_constraints n (λ p. cc)
        (λ e. ground arith) (λ o. o ≡ view s security_context_constraints n)
        (λ m u _ before.
          ensure_all_resources-skips (guard markers P forbidden)
            (guard-IsLawful markers P L forbidden visible) (guard-HasHelpers markers P forbidden H)
            m u forbidden n refl
          ∙ before)
        s t runs refl
