-- ===== src/Examples/Permissions.antt =====
-- Runs of the operator with the permissions that its markers ask for.
use nfs_provisioner_operator.Base.{◌∷◌, ◌≡◌, refl}
use nfs_provisioner_operator.Cluster.{security_context_constraints}
use nfs_provisioner_operator.Cluster.Memory.{Memory, unavailable, memory, memory_view}
use nfs_provisioner_operator.Cluster.Memory.Laws.{memory-IsLawful}
use nfs_provisioner_operator.Cluster.Memory.Helpers.{memory-HasHelpers}
use nfs_provisioner_operator.Resources.Scc.{scc_key}
use nfs_provisioner_operator.Controller.Steps.{run}
use nfs_provisioner_operator.Controller.History.{stop, next}
use nfs_provisioner_operator.Controller.Permissions.{markers, definitions_marker, guard}
use nfs_provisioner_operator.Controller.Permissions.Enough.{reconcile_permitted}
use nfs_provisioner_operator.Controller.Permissions.Denied.{Runs-unconstrained}
use nfs_provisioner_operator.Examples.Data.{req, live, calm, with_crd}

abbrev openshift : Memory
openshift = calm (with_crd live)

reconcile_permitted_example :
    run (guard (definitions_marker ∷ markers) memory unavailable) req openshift
    ≡ run memory req openshift
reconcile_permitted_example = reconcile_permitted memory unavailable req openshift

Runs-unconstrained_example :
    memory_view
      (run (guard markers memory unavailable) req openshift).1
      security_context_constraints
      scc_key
    ≡ memory_view openshift security_context_constraints scc_key
unfolding memory-IsLawful
Runs-unconstrained_example =
    Runs-unconstrained memory memory-IsLawful memory-HasHelpers unavailable refl scc_key openshift
      (run (guard markers memory unavailable) req openshift).1 (next req _ _ (stop _))
