-- ===== src/Controller/Deletion.antt =====
-- A run on a valid resource that is being deleted.
use nfs_provisioner_operator.Base.{
  Option, true, false, none, some, ◌≡◌, ◌≢◌, refl, ◌∙◌, sym, subst, if◌then◌else◌, arith,
}
use nfs_provisioner_operator.Base.Lists.{Elem}
use nfs_provisioner_operator.Base.Exec.{Outcome, ok, found, failed, bind_rule}
use nfs_provisioner_operator.Kube.Meta.{NamespacedName}
use nfs_provisioner_operator.Api.{NfsProvisioner}
use nfs_provisioner_operator.Cluster.{
  Kind, Platform, nfs_provisioner, cluster_role, cluster_role_binding, storage_class,
}
use nfs_provisioner_operator.Cluster.Laws.{IsLawful, HasHelpers, key}
use nfs_provisioner_operator.Cluster.Growth.{Present}
use nfs_provisioner_operator.Resources.Manager.{new_resource_manager_set}
use nfs_provisioner_operator.Resources.Refs.{storage_class_ref, cluster_role_ref}
use nfs_provisioner_operator.Resources.All.{ensure_all, ensure_all_resources-IsReady}
use nfs_provisioner_operator.Controller.Validate.{validate}
use nfs_provisioner_operator.Controller.Strings.{contains_string}
use nfs_provisioner_operator.Controller.StringLaws.{contains_string_iff}
use nfs_provisioner_operator.Controller.Cleanup.{cluster_role_key, cluster_role_binding_key}
use nfs_provisioner_operator.Controller.CleanupLaws.{
  ReadsWell, IsFree, after_role, delete_external_resources-frame, delete_external_resources-gone,
  delete_external_resources-overlooks,
}
use nfs_provisioner_operator.Controller.Reconcile.{
  ReconcileResult, done, finalizer_name, without_finalizer, register, finalize, reconcile_valid,
}
use nfs_provisioner_operator.Controller.Steps.{
  start, run, ensured, start-found, reconcile_found_valid,
}
use nfs_provisioner_operator.Controller.Finalize.{
  cleaned, removal, finalize_rule, Finalized, finalize-Finalized, finalize-frame,
}

-- The resource is gone, or is there without the finalizer.
abbrev pub IsUnmarked : Option NfsProvisioner → Type 0
IsUnmarked none = Unit {0}
IsUnmarked (some y) = ¬ Elem finalizer_name y.metadata.finalizers

IsUnmarked-if :
    (o : Option NfsProvisioner)
    → ((y : NfsProvisioner) → o ≡ some y → ¬ Elem finalizer_name y.metadata.finalizers)
    → IsUnmarked o
IsUnmarked-if none h = tt
IsUnmarked-if (some y) h = h y refl

module _ (P : Platform) (L : IsLawful P) (H : HasHelpers P) where
  open P use {State, Error, get, update, is_zero}
  open L use {view}

  module _ (req : NamespacedName) (s : State) (m : NfsProvisioner)
      (seen : (get nfs_provisioner req s).0 ≡ found m) (valid : validate m ≡ none) where
    named_req : key nfs_provisioner m ≡ req
    named_req = (start-found P (new_resource_manager_set P) req s L m seen).1

    -- The run on a valid resource, in its two parts.
    pub reconcile_parts :
        (R : Outcome Error ReconcileResult × State → Type 0)
        → ((o : Outcome Error ReconcileResult)
            → ((r : ReconcileResult) → o ≢ ok r)
            → R (o, ensured P m req s))
        → ((ensure_all P m (start P req s)).0 ≡ ok tt
            → R (
                (if is_zero m.metadata.deletion_timestamp then register P m else finalize P m)
                  (ensured P m req s)))
        → R (run P req s)
    reconcile_parts R stopped goes =
        subst R (sym (reconcile_found_valid P (new_resource_manager_set P) req s m seen valid)) (
          unfold reconcile_valid in
          bind_rule R (ensure_all P m)
            (λ _. if is_zero m.metadata.deletion_timestamp then register P m else finalize P m)
            (start P req s) stopped (λ _ fine. goes fine))

    module _ (deleted : is_zero m.metadata.deletion_timestamp ≡ false)
        (marked : Elem finalizer_name m.metadata.finalizers) where
      has_mark : contains_string m.metadata.finalizers finalizer_name ≡ true
      has_mark = (contains_string_iff m.metadata.finalizers finalizer_name).1 marked

      -- The parts of a run that succeeds on a resource that is being deleted.
      deletion_parts :
          (R : Outcome Error ReconcileResult × State → Type 0)
          → ((ensure_all P m (start P req s)).0 ≡ ok tt → R (finalize P m (ensured P m req s)))
          → (result : ReconcileResult) → (run P req s).0 ≡ ok result
          → R (run P req s)
      deletion_parts R goes =
          reconcile_parts (λ p. (result : ReconcileResult) → p.0 ≡ ok result → R p)
            (λ o stopped result h. absurd (stopped result h))
            (λ fine. rw deleted (λ result h. goes fine))

      -- If the resource is valid, being deleted and has the finalizer, and the run succeeds, then
      -- the run asks for no other, and the resource is gone or no longer has the finalizer.
      pub reconcile-deletes :
          (result : ReconcileResult)
          → (run P req s).0 ≡ ok result
          → (result ≡ done) × IsUnmarked (view (run P req s).1 nfs_provisioner req)
      reconcile-deletes result h =
          let (asked, free) =
            deletion_parts (Finalized P L H m req named_req)
              (λ _. finalize-Finalized P L H m req named_req (ensured P m req s) has_mark) result h
              result h in
          (asked, IsUnmarked-if _ free)

      -- If the resource is valid, being deleted and has the finalizer, and the run succeeds, then
      -- the storage class of the resource is in the cluster after the run.
      pub reconcile-leaves_storage_class :
          (result : ReconcileResult)
          → (run P req s).0 ≡ ok result
          → Present (view (run P req s).1) (storage_class_ref m)
      reconcile-leaves_storage_class =
          deletion_parts (λ p. Present (view p.1) (storage_class_ref m))
            (λ fine.
              let (x, here) =
                (ensure_all_resources-IsReady P L H m (start P req s) fine).storage_class in
              (
                x,
                finalize-frame P L H m req named_req (ensured P m req s) storage_class _ has_mark
                      (λ p. cc)
                    ∙ delete_external_resources-frame P L (ensured P m req s) storage_class _
                        (λ e. ground arith)
                    ∙ here,
              ))

      -- If the resource is valid, being deleted and has the finalizer, the cleanup's read of the
      -- cluster role fails for whatever reason, and the run succeeds, then the cluster role is in
      -- the cluster after the run, while the resource is gone or no longer has the finalizer.
      pub reconcile-overlooks :
          (e : Error)
          → (get cluster_role cluster_role_key (ensured P m req s)).0 ≡ failed e
          → (result : ReconcileResult) → (run P req s).0 ≡ ok result
          → Present (view (run P req s).1) cluster_role_ref
            × IsUnmarked (view (run P req s).1 nfs_provisioner req)
      reconcile-overlooks e missed result h = (
        deletion_parts (λ p. Present (view p.1) cluster_role_ref)
            (λ fine.
              let (x, here) =
                (ensure_all_resources-IsReady P L H m (start P req s) fine).access.0 in
              (
                x,
                finalize-frame P L H m req named_req (ensured P m req s) cluster_role _ has_mark
                      (λ p. cc)
                    ∙ delete_external_resources-overlooks P L (ensured P m req s) e missed
                    ∙ here,
              ))
            result h,
        (reconcile-deletes result h).1,
      )

      -- If the resource is valid, being deleted and has the finalizer, the run succeeds, the
      -- cleanup's two reads fail only on missing objects, and no finalizer holds the cluster role
      -- and its binding back, then both are gone after the run.
      pub reconcile-cleans :
          ReadsWell P L cluster_role cluster_role_key (ensured P m req s)
          → ReadsWell P L cluster_role_binding cluster_role_binding_key
              (after_role P L (ensured P m req s))
          → IsFree P L cluster_role cluster_role_key (ensured P m req s)
          → IsFree P L cluster_role_binding cluster_role_binding_key (ensured P m req s)
          → (result : ReconcileResult) → (run P req s).0 ≡ ok result
          → (view (run P req s).1 cluster_role cluster_role_key ≡ none)
            × (view (run P req s).1 cluster_role_binding cluster_role_binding_key ≡ none)
      reconcile-cleans reads_role reads_binding free_role free_binding result h =
          deletion_parts (λ p. (r : ReconcileResult) → p.0 ≡ ok r → Cleaned p.1)
            (λ _.
              finalize_rule P L H m req named_req
                (λ p. (r : ReconcileResult) → p.0 ≡ ok r → Cleaned p.1) (ensured P m req s) has_mark
                (λ o stopped r e. absurd (stopped r e))
                (λ fine _ r e.
                  let (role, binding) =
                    delete_external_resources-gone P L (ensured P m req s) reads_role reads_binding
                      free_role free_binding fine in
                  (
                    written cluster_role _ (λ q. cc) ∙ role,
                    written cluster_role_binding _ (λ q. cc) ∙ binding,
                  ))
                (λ e bad r q. cc))
            result h result h
        where
          Cleaned : State → Type 0
          Cleaned t =
              (view t cluster_role cluster_role_key ≡ none)
              × (view t cluster_role_binding cluster_role_binding_key ≡ none)

          written :
              (k : Kind) (n : NamespacedName)
              → k ≢ nfs_provisioner
              → view (removal P L H m (ensured P m req s)).1 k n
                ≡ view (cleaned P L H (ensured P m req s)) k n
          written k n other =
              L.update-other nfs_provisioner (without_finalizer P m) _ k n (λ q. other q.0)
