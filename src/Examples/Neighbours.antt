-- ===== src/Examples/Neighbours.antt =====
-- A resource in a cluster in which another namespace has one already.
use nfs_provisioner_operator.Base.{none, some, ◌≡◌, ◌≢◌, refl, if◌then◌else◌, inr, eq_iff}
use nfs_provisioner_operator.Base.Exec.{ok, found}
use nfs_provisioner_operator.Kube.Meta.{NamespacedName, named, same_name}
use nfs_provisioner_operator.Api.{NfsProvisioner}
use nfs_provisioner_operator.Cluster.{nfs_provisioner, cluster_role_binding}
use nfs_provisioner_operator.Cluster.Laws.{View}
use nfs_provisioner_operator.Cluster.Growth.{Present}
use nfs_provisioner_operator.Cluster.Memory.{Memory, memory, memory_view}
use nfs_provisioner_operator.Cluster.Memory.Laws.{memory-IsLawful}
use nfs_provisioner_operator.Cluster.Memory.Helpers.{memory-HasHelpers}
use nfs_provisioner_operator.Cluster.Memory.Answers.{memory-Answers}
use nfs_provisioner_operator.Resources.Rbac
use nfs_provisioner_operator.Resources.Refs.{deployment_ref}
use nfs_provisioner_operator.Controller.Validate.{validate}
use nfs_provisioner_operator.Controller.Cleanup.{cluster_role_binding_key}
use nfs_provisioner_operator.Controller.Reconcile.{again}
use nfs_provisioner_operator.Controller.Steps.{run}
use nfs_provisioner_operator.Controller.Success.{reconcile-succeeds}
use nfs_provisioner_operator.Controller.Sharing.{Binds, reconcile-unbound}
use nfs_provisioner_operator.Controller.History.{stop, next}
use nfs_provisioner_operator.Controller.Isolation.{Runs-isolated}
use nfs_provisioner_operator.Examples.Data.{req, live, calm}

abbrev neighbour : NfsProvisioner
neighbour = record live { metadata = record live.metadata { namespace = "first" } }

abbrev first_req : NamespacedName
first_req = named "first" "nfs"

abbrev taken : View
taken nfs_provisioner n =
    if same_name n req then some live else if same_name n first_req then some neighbour else none
taken cluster_role_binding n =
    if same_name n cluster_role_binding_key
    then some (Rbac.build_cluster_role_binding memory neighbour)
    else none
taken _ n = none

abbrev second : Memory
second = calm taken

second-seen : (memory.get nfs_provisioner req second).0 ≡ found live
unfolding same_name
second-seen = refl

apart : neighbour.metadata.namespace ≢ live.metadata.namespace
apart p = cc ((eq_iff "first" "tenant").1 p)

placed : req.namespace ≢ ""
placed p = cc

live-valid : validate live ≡ none
unfolding validate
live-valid = refl

second-done : (run memory req second).0 ≡ ok again
unfolding memory-IsLawful memory-Answers
second-done =
    (reconcile-succeeds memory memory-IsLawful memory-Answers memory-HasHelpers req second live
      second-seen live-valid refl (inr (inr (refl, (10000000000, refl))))).0

reconcile-unbound_example :
    Present (memory_view (run memory req second).1) (deployment_ref live)
    × (memory_view (run memory req second).1 cluster_role_binding cluster_role_binding_key
        ≡ some (Rbac.build_cluster_role_binding memory neighbour))
    × ¬ Binds (Rbac.build_cluster_role_binding memory neighbour) "tenant"
unfolding memory-IsLawful same_name Rbac.build_cluster_role_binding
reconcile-unbound_example =
    reconcile-unbound memory memory-IsLawful memory-HasHelpers req second live neighbour
      (Rbac.build_cluster_role_binding memory neighbour) second-seen live-valid refl refl refl apart
      again second-done

-- A run on the resource of the first namespace.
abbrev after_first : Memory
after_first = (run memory first_req second).1

Runs-isolated_example :
    memory_view after_first nfs_provisioner req ≡ memory_view second nfs_provisioner req
unfolding memory-IsLawful
Runs-isolated_example =
    Runs-isolated memory memory-IsLawful memory-HasHelpers nfs_provisioner req placed second
      after_first (next first_req second after_first (stop after_first)) (apart, tt)
