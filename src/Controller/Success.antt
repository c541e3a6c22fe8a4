-- ===== src/Controller/Success.antt =====
-- A run succeeds in a cluster that answers.
use nfs_provisioner_operator.Base.{
  none, some, ◌≡◌, refl, sym, ◌∙◌, ap, subst, inl, inr, Bool-cases, if◌then◌else◌, arith,
}
use nfs_provisioner_operator.Base.Exec.{Outcome, ok, Exec, found, call, pure, continue, ◌>>◌}
use nfs_provisioner_operator.Kube.Meta.{NamespacedName, key_of}
use nfs_provisioner_operator.Api.{NfsProvisioner}
use nfs_provisioner_operator.Cluster.{
  Kind, Platform, nfs_provisioner, cluster_role, cluster_role_binding,
}
use nfs_provisioner_operator.Cluster.Laws.{View, IsLawful, HasHelpers, key}
use nfs_provisioner_operator.Cluster.Answers.{Answers}
use nfs_provisioner_operator.Resources.Manager.{new_resource_manager_set}
use nfs_provisioner_operator.Resources.Success.{Fine, Works, Works-then}
use nfs_provisioner_operator.Resources.Storage.{HasStorage}
use nfs_provisioner_operator.Resources.Succeed.{ensure_all_resources-succeeds}
use nfs_provisioner_operator.Resources.All.{ensure_all}
use nfs_provisioner_operator.Controller.Validate.{validate}
use nfs_provisioner_operator.Controller.Strings.{contains_string}
use nfs_provisioner_operator.Controller.Cleanup.{
  delete_if_found, delete_external_resources, cluster_role_key, cluster_role_binding_key,
}
use nfs_provisioner_operator.Controller.CleanupLaws.{
  delete_if_found_rule, delete_external_resources-frame,
}
use nfs_provisioner_operator.Controller.Reconcile.{
  ReconcileResult, done, again, finalizer_name, with_finalizer, without_finalizer, register,
  finalize, reconcile_valid,
}
use nfs_provisioner_operator.Controller.Steps.{
  start, run, ensured, start-found, reconcile_found_valid,
}
use nfs_provisioner_operator.Controller.Live.{ensured-resource}
use nfs_provisioner_operator.Controller.Finalize.{cleaned}

module _ (P : Platform) (L : IsLawful P) (A : Answers P L) (H : HasHelpers P) where
  open P use {State, Error, get, update, delete, is_zero}
  open L use {view, view-get}
  open A use {IsUp}

  Works-delete_if_found : (k : Kind) (n : NamespacedName) → Works P L A (delete_if_found P k n)
  Works-delete_if_found k n s up =
      delete_if_found_rule P L k n s (Fine P L A)
        (λ o _ here named_n. (
          rw (
              A.delete-answers k o o (get k n s).1 (A.get-IsUp k n s up) (
                subst (λ i. view (get k n s).1 k i ≡ some o) (sym named_n)
                  (ap (λ (v : View). v k n) (view-get k n s) ∙ here))),
          A.delete-IsUp k o _ (A.get-IsUp k n s up),
        ))
        (λ e _. (refl, A.get-IsUp k n s up))

  Works-cleanup : Works P L A (delete_external_resources P)
  unfolding delete_external_resources
  Works-cleanup =
      Works-then P L A _ _ (Works-delete_if_found cluster_role cluster_role_key)
        (Works-delete_if_found cluster_role_binding cluster_role_binding_key)

  -- What a run on a resource answers: to be repeated, unless the resource is being deleted.
  abbrev pub answer : NfsProvisioner → ReconcileResult
  answer m = if is_zero m.metadata.deletion_timestamp then again else done

  module _ (m : NfsProvisioner) (req : NamespacedName)
      (named_req : key nfs_provisioner m ≡ req) where
    abbrev Answered : ReconcileResult → Outcome Error ReconcileResult × State → Type 0
    Answered r p = (p.0 ≡ ok r) × IsUp p.1

    -- The last step of both branches: the resource is written, and the result is given.
    written :
        (o : NfsProvisioner) (r : ReconcileResult) (t : State)
        → IsUp t
        → key nfs_provisioner o ≡ req
        → view t nfs_provisioner req ≡ some m
        → Answered r ((call (update nfs_provisioner o) >> pure r) t)
    written o r t up named_o here =
        rw
          (A.update-answers nfs_provisioner o m t up
            (subst (λ n. view t nfs_provisioner n ≡ some m) (sym named_o) here))
          (refl, A.update-IsUp nfs_provisioner o t up)

    register-Answered :
        (t : State) → IsUp t → view t nfs_provisioner req ≡ some m → Answered again (register P m t)
    unfolding register
    register-Answered t up here =
        elim (Bool-cases (contains_string m.metadata.finalizers finalizer_name)) [
          | inl old ↦ rw old (refl, up)
          | inr new ↦ rw new (
              written (with_finalizer P m) again t up
                (ap key_of (H.add_finalizer_only m.metadata finalizer_name) ∙ named_req) here)
        ]

    continue-Answered :
        (y : Exec State Error ReconcileResult) (r : ReconcileResult) (o : Outcome Error (Unit {0}))
        (t : State)
        → o ≡ ok tt
        → Answered r (y t)
        → Answered r (continue o (λ _. y) t)
    continue-Answered y r o t first next = rw first next

    finalize-Answered :
        (t : State) → IsUp t → view t nfs_provisioner req ≡ some m → Answered done (finalize P m t)
    unfolding finalize
    finalize-Answered t up here =
        elim (Bool-cases (contains_string m.metadata.finalizers finalizer_name)) [
          | inl marked ↦ rw marked (
              let (first, up') = Works-cleanup t up in
              continue-Answered (call (update nfs_provisioner (without_finalizer P m)) >> pure done)
                done (delete_external_resources P t).0 (cleaned P L H t) first
                (written (without_finalizer P m) done _ up'
                  (ap key_of (H.remove_finalizer_only m.metadata finalizer_name) ∙ named_req)
                  (delete_external_resources-frame P L t nfs_provisioner req (λ e. ground arith)
                    ∙ here)))
          | inr free ↦ rw free (refl, up)
        ]

    steps-Answered :
        (t : State)
        → IsUp t
        → view t nfs_provisioner req ≡ some m
        → Answered
            (answer m)
            ((if is_zero m.metadata.deletion_timestamp then register P m else finalize P m) t)
    steps-Answered t up here = elim (Bool-cases (is_zero m.metadata.deletion_timestamp)) [
      | inl p ↦ rw p (register-Answered t up here)
      | inr p ↦ rw p (finalize-Answered t up here)
    ]

  -- In a cluster that answers, where reads fail only on missing objects, creations of missing
  -- objects work, and updates and deletions of existing objects work, a run on a valid resource
  -- succeeds if its storage can be had: a host path, a claim of the user's that exists, or a size
  -- that is a quantity for a claim to be made. It asks to be repeated unless the resource is being
  -- deleted, and the cluster goes on answering.
  pub reconcile-succeeds :
      (req : NamespacedName) (s : State) (m : NfsProvisioner)
      → (get nfs_provisioner req s).0 ≡ found m
      → validate m ≡ none
      → IsUp s
      → HasStorage P m (view s)
      → ((run P req s).0 ≡ ok (answer m)) × IsUp (run P req s).1
  reconcile-succeeds req s m seen valid up storage =
      subst (Answered m req named_req (answer m))
        (sym (reconcile_found_valid P (new_resource_manager_set P) req s m seen valid))
        (unfold reconcile_valid in
          let (first, up') =
            ensure_all_resources-succeeds P L A H m (start P req s)
              (A.get-IsUp nfs_provisioner req s up)
              (subst (HasStorage P m) (sym (view-get nfs_provisioner req s)) storage) in
          continue-Answered m req named_req
            (if is_zero m.metadata.deletion_timestamp then register P m else finalize P m)
            (answer m) (ensure_all P m (start P req s)).0 (ensured P m req s) first
            (steps-Answered m req named_req (ensured P m req s) up'
              (ensured-resource P L H req s m seen valid)))
    where
      named_req : key nfs_provisioner m ≡ req
      named_req = (start-found P (new_resource_manager_set P) req s L m seen).1
