-- ===== src/Controller/Reconcile.antt =====
-- `Reconcile` of controllers/nfsprovisioner_controller.go. What is logged is left out.
use nfs_provisioner_operator.Base.{
  String, ◌<>◌, Bool, true, false, none, some, [], if◌then◌else◌, not,
}
use nfs_provisioner_operator.Base.Exec.{Exec, found, failed, ask, call, pure, fail, ◌>>=◌, ◌>>◌}
use nfs_provisioner_operator.Kube.Meta.{NamespacedName}
use nfs_provisioner_operator.Api.{NfsProvisioner}
use nfs_provisioner_operator.Cluster.{Platform, nfs_provisioner}
use nfs_provisioner_operator.Resources.Manager.{ResourceManagerSet, ensure_all_resources}
use nfs_provisioner_operator.Controller.Validate.{validate}
use nfs_provisioner_operator.Controller.Strings.{contains_string}
use nfs_provisioner_operator.Controller.Cleanup.{delete_external_resources}

-- `ctrl.Result`
pub record ReconcileResult : Type 0 where
  pub requeue : Bool

abbrev pub done : ReconcileResult
done = record { requeue = false }

abbrev pub again : ReconcileResult
again = record { requeue = true }

abbrev pub finalizer_name : String
finalizer_name = "nfsprovisioner.finalizers.jhouse.io"

-- The status of a resource that is not valid.
abbrev pub invalid_message : NfsProvisioner → String
invalid_message m =
    "pvc: "
    <> (m.spec.pvc
        <> (" | sc: " <> (m.spec.sc_for_nfs_pvc <> (" | hostPathDir: " <> m.spec.host_path_dir))))

abbrev pub reported : NfsProvisioner → NfsProvisioner
reported m = record m { status = record { nodes = some []; error = invalid_message m } }

module _ (P : Platform) where
  open P use {State, Error, is_not_found, ignore_not_found, get, update, update_status, is_zero}
  open P use {add_finalizer, remove_finalizer}

  abbrev pub with_finalizer : NfsProvisioner → NfsProvisioner
  with_finalizer m = record m { metadata = add_finalizer m.metadata finalizer_name }

  abbrev pub without_finalizer : NfsProvisioner → NfsProvisioner
  without_finalizer m = record m { metadata = remove_finalizer m.metadata finalizer_name }

  unfoldable pub report_invalid : NfsProvisioner → Exec State Error ReconcileResult
  report_invalid m = do call (update_status nfs_provisioner (reported m)); pure done

  -- The resource is not being deleted.
  unfoldable pub register : NfsProvisioner → Exec State Error ReconcileResult
  register m =
      if not (contains_string m.metadata.finalizers finalizer_name)
      then (do call (update nfs_provisioner (with_finalizer m)); pure again)
      else pure again

  -- The resource is being deleted.
  unfoldable pub finalize : NfsProvisioner → Exec State Error ReconcileResult
  finalize m =
      if contains_string m.metadata.finalizers finalizer_name
      then (do
        delete_external_resources P
        call (update nfs_provisioner (without_finalizer m))
        pure done)
      else pure done

  module _ (r : ResourceManagerSet P) where
    unfoldable pub reconcile_valid : NfsProvisioner → Exec State Error ReconcileResult
    unfolding register finalize
    reconcile_valid m = do
      ensure_all_resources P r m
      if is_zero m.metadata.deletion_timestamp then register m else finalize m

    unfoldable pub reconcile : NamespacedName → Exec State Error ReconcileResult
    unfolding report_invalid reconcile_valid
    reconcile req = do
      reply ← ask (get nfs_provisioner req)
      elim reply [
        | failed e ↦
            if is_not_found e
            then pure done
            else elim (ignore_not_found e) [ none ↦ pure done | some e' ↦ fail e' ]
        | found m ↦ elim (validate m) [ some _ ↦ report_invalid m | none ↦ reconcile_valid m ]
      ]
