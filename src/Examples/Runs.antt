-- ===== src/Examples/Runs.antt =====
-- Runs on a resource that is not being deleted.
use nfs_provisioner_operator.Base.{◌⊎◌, arith, ◌≤◌, none, some, [], ◌≡◌, refl, inr}
use nfs_provisioner_operator.Base.Lists.{Elem}
use nfs_provisioner_operator.Base.Exec.{ok, found}
use nfs_provisioner_operator.Kube.Meta.{NamespacedName, named, same_name}
use nfs_provisioner_operator.Api.{NfsProvisioner}
use nfs_provisioner_operator.Cluster.{
  nfs_provisioner, custom_resource_definition, security_context_constraints, service_account,
}
use nfs_provisioner_operator.Cluster.Memory.{Memory, memory, memory_view}
use nfs_provisioner_operator.Cluster.Memory.Tables.{write, put}
use nfs_provisioner_operator.Cluster.Memory.Laws.{memory-IsLawful}
use nfs_provisioner_operator.Cluster.Memory.Helpers.{memory-HasHelpers}
use nfs_provisioner_operator.Cluster.Memory.Answers.{memory-Answers}
use nfs_provisioner_operator.Resources.All.{IsReady}
use nfs_provisioner_operator.Cluster.Memory.{listed}
use nfs_provisioner_operator.Resources.Manager.{ensure_all_resources, ensure_each}
use nfs_provisioner_operator.Resources.Scc
use nfs_provisioner_operator.Resources.Scc.{is_scc_crd_available}
use nfs_provisioner_operator.Resources.Pvc
use nfs_provisioner_operator.Resources.ServiceAccount
use nfs_provisioner_operator.Resources.Rbac
use nfs_provisioner_operator.Resources.Deployment
use nfs_provisioner_operator.Resources.Service
use nfs_provisioner_operator.Resources.StorageClass
use nfs_provisioner_operator.Controller.Strings.{contains_string}
use nfs_provisioner_operator.Controller.Validate.{validate}
use nfs_provisioner_operator.Controller.Reconcile.{
  again, finalizer_name, reconcile, reconcile_valid, register,
}
use nfs_provisioner_operator.Controller.Steps.{run}
use nfs_provisioner_operator.Controller.Live.{KeepsSpec, reconcile-live}
use nfs_provisioner_operator.Controller.Success.{reconcile-succeeds}
use nfs_provisioner_operator.Controller.Settle.{reconcile-settles}
use nfs_provisioner_operator.Resources.Scc.Counts.{times_listed}
use nfs_provisioner_operator.Defaults
use nfs_provisioner_operator.Controller.Provenance.{IsBuilt, Runs-IsBuilt}
use nfs_provisioner_operator.Controller.Listing.{Runs-times_listed}
use nfs_provisioner_operator.Controller.History.{Runs, stop, next, Kept, Runs-Kept}
use nfs_provisioner_operator.Examples.Data.{req, live, registered, only, calm, with_crd, scc_crd}

abbrev fresh : Memory
fresh = calm (only live)

fresh-seen : (memory.get nfs_provisioner req fresh).0 ≡ found live
unfolding same_name
fresh-seen = refl

live-valid : validate live ≡ none
unfolding validate
live-valid = refl

reconcile-succeeds_example :
    ((run memory req fresh).0 ≡ ok again) × ((run memory req fresh).1.outages ≡ [])
unfolding memory-IsLawful memory-Answers
reconcile-succeeds_example =
    reconcile-succeeds memory memory-IsLawful memory-Answers memory-HasHelpers req fresh live
      fresh-seen live-valid refl (inr (inr (refl, (10000000000, refl))))

fresh-done : (run memory req fresh).0 ≡ ok again
unfolding memory-IsLawful memory-Answers
fresh-done =
    (reconcile-succeeds memory memory-IsLawful memory-Answers memory-HasHelpers req fresh live
      fresh-seen live-valid refl (inr (inr (refl, (10000000000, refl))))).0

reconcile-live_example :
    (again ≡ again)
    × IsReady live (memory_view (run memory req fresh).1)
    × ((y : NfsProvisioner) × (memory_view (run memory req fresh).1 nfs_provisioner req ≡ some y)
        × KeepsSpec memory memory-IsLawful memory-HasHelpers live y
        × Elem finalizer_name y.metadata.finalizers)
unfolding memory-IsLawful
reconcile-live_example =
    reconcile-live memory memory-IsLawful memory-HasHelpers req fresh live fresh-seen live-valid
      refl again fresh-done

fresh-read_again : (memory.get nfs_provisioner req (run memory req fresh).1).0 ≡ found registered
unfolding same_name write put contains_string reconcile reconcile_valid register
    ensure_all_resources ensure_each is_scc_crd_available Scc.ensure_resource Pvc.ensure_resource
    Pvc.build_pvc ServiceAccount.ensure_resource ServiceAccount.build_service_account
    Rbac.ensure_resource Rbac.ensure_cluster_role Rbac.ensure_cluster_role_binding Rbac.ensure_role
    Rbac.ensure_role_binding Rbac.build_cluster_role Rbac.build_cluster_role_binding Rbac.build_role
    Rbac.build_role_binding Deployment.ensure_resource Service.ensure_resource
    StorageClass.ensure_resource Deployment.build_deployment Service.build_service
    StorageClass.build_storage_class listed validate
fresh-read_again = refl

reconcile-settles_example :
    memory_view (run memory req (run memory req fresh).1).1 ≡ memory_view (run memory req fresh).1
unfolding memory-IsLawful
reconcile-settles_example =
    reconcile-settles memory memory-IsLawful memory-HasHelpers req fresh live registered again
      fresh-seen live-valid refl (inr refl) fresh-done fresh-read_again

-- A run on the resource, and then one on a name that no resource has.
abbrev openshift : Memory
openshift = calm (with_crd live)

abbrev after_two : Memory
after_two = (run memory (named "tenant" "other") (run memory req openshift).1).1

two-Runs : Runs memory openshift after_two
two-Runs =
    next req openshift after_two
      (next (named "tenant" "other") (run memory req openshift).1 after_two (stop after_two))

abbrev account_key : NamespacedName
account_key = named "tenant" Defaults.service_account

Runs-Kept_example : Kept custom_resource_definition Scc.crd_key scc_crd (memory_view after_two)
unfolding memory-IsLawful same_name
Runs-Kept_example =
    Runs-Kept memory memory-IsLawful memory-HasHelpers custom_resource_definition Scc.crd_key
      scc_crd openshift after_two (λ p. cc) (λ e. ground arith) refl two-Runs

Runs-times_listed_example :
    times_listed "system:serviceaccount:tenant:nfs-provisioner"
      (memory_view after_two security_context_constraints Scc.scc_key)
    ≤ 1
unfolding memory-IsLawful same_name
Runs-times_listed_example =
    Runs-times_listed memory memory-IsLawful memory-HasHelpers
      "system:serviceaccount:tenant:nfs-provisioner" openshift after_two two-Runs (omega arith)

Runs-IsBuilt_example :
    (memory_view after_two service_account account_key
      ≡ memory_view openshift service_account account_key)
    ⊎ IsBuilt memory service_account account_key (memory_view after_two service_account account_key)
unfolding memory-IsLawful same_name
Runs-IsBuilt_example =
    Runs-IsBuilt memory memory-IsLawful memory-HasHelpers service_account account_key openshift
      after_two (λ p. cc) (λ p. cc) (λ e. ground arith) two-Runs
