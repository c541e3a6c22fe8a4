-- ===== src/Examples/Firsts.antt =====
-- A first run on a resource, and what it does to every object.
use nfs_provisioner_operator.Base.{none, refl, inr, ◌≡◌}
use nfs_provisioner_operator.Base.Exec.{ok, found}
use nfs_provisioner_operator.Kube.Meta.{same_name}
use nfs_provisioner_operator.Cluster.{nfs_provisioner, security_context_constraints}
use nfs_provisioner_operator.Cluster.Memory.{Memory, memory, memory_view}
use nfs_provisioner_operator.Cluster.Memory.Laws.{memory-IsLawful}
use nfs_provisioner_operator.Cluster.Memory.Helpers.{memory-HasHelpers}
use nfs_provisioner_operator.Cluster.Memory.Answers.{memory-Answers}
use nfs_provisioner_operator.Resources.Scc.{scc_key}
use nfs_provisioner_operator.Resources.All.{ensure_all}
use nfs_provisioner_operator.Resources.Works.{Works}
use nfs_provisioner_operator.Resources.Origin.Constraints.{Effect, ensure_all_resources-Effect}
use nfs_provisioner_operator.Controller.Validate.{validate}
use nfs_provisioner_operator.Controller.Reconcile.{again}
use nfs_provisioner_operator.Controller.Steps.{run}
use nfs_provisioner_operator.Controller.Success.{reconcile-succeeds}
use nfs_provisioner_operator.Controller.Works.{reconcile-Works}
use nfs_provisioner_operator.Examples.Data.{req, live, only, calm}

abbrev fresh : Memory
fresh = calm (only live)

fresh-seen : (memory.get nfs_provisioner req fresh).0 ≡ found live
unfolding same_name
fresh-seen = refl

live-valid : validate live ≡ none
unfolding validate
live-valid = refl

fresh-done : (run memory req fresh).0 ≡ ok again
unfolding memory-IsLawful memory-Answers
fresh-done =
    (reconcile-succeeds memory memory-IsLawful memory-Answers memory-HasHelpers req fresh live
      fresh-seen live-valid refl (inr (inr (refl, (10000000000, refl))))).0

reconcile-Works_example : Works live (memory_view (run memory req fresh).1)
unfolding memory-IsLawful
reconcile-Works_example =
    reconcile-Works memory memory-IsLawful memory-HasHelpers req fresh live fresh-seen live-valid
      refl (refl, (refl, (refl, (refl, (refl, (refl, (refl, (refl, (refl, tt))))))))) again
      fresh-done

ensure_all_resources-Effect_example :
    Effect memory live
      (memory_view fresh)
      (memory_view (ensure_all memory live fresh).1)
      security_context_constraints
      scc_key
unfolding memory-IsLawful
ensure_all_resources-Effect_example =
    ensure_all_resources-Effect memory memory-IsLawful memory-HasHelpers live fresh
      security_context_constraints scc_key
