-- ===== src/Controller/Listing.antt =====
-- The users of the constraints over many runs.
use nfs_provisioner_operator.Base.{◌≤◌, String, arith}
use nfs_provisioner_operator.Cluster.{Platform, security_context_constraints}
use nfs_provisioner_operator.Cluster.Laws.{IsLawful, HasHelpers}
use nfs_provisioner_operator.Resources.Scc.{scc_key}
use nfs_provisioner_operator.Resources.Scc.Counts.{times_listed, ensure_all_resources_count}
use nfs_provisioner_operator.Controller.History.{Runs, Runs_rule}

module _ (P : Platform) (L : IsLawful P) (H : HasHelpers P) where
  open L use {view}

  -- Over any sequence of runs, on whichever resources and whatever their outcomes, a user that the
  -- security context constraints list at most once stays listed at most once, also where the
  -- constraints are missing at first.
  pub Runs-times_listed :
      (u : String) (s t : P.State)
      → Runs P s t
      → times_listed u (view s security_context_constraints scc_key) ≤ 1
      → times_listed u (view t security_context_constraints scc_key) ≤ 1
  Runs-times_listed u s t runs le =
      Runs_rule P L H security_context_constraints scc_key (λ p. cc) (λ e. ground arith)
        (λ o. times_listed u o ≤ 1) (λ m r _. ensure_all_resources_count P L H m u r) s t runs le
