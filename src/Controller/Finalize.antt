-- ===== src/Controller/Finalize.antt =====
-- The last steps on a resource that is being deleted: the cleanup and the removal of the finalizer.
use nfs_provisioner_operator.Base.{true, none, some, Option, ◌≡◌, ◌≢◌, refl, ◌∙◌, ap, sym, subst}
use nfs_provisioner_operator.Base.Lists.{Elem}
use nfs_provisioner_operator.Base.Exec.{
  Outcome, ok, err, call, pure, call_then_rule, bind_rule, ◌>>◌,
}
use nfs_provisioner_operator.Kube.Meta.{NamespacedName, key_of}
use nfs_provisioner_operator.Api.{NfsProvisioner}
use nfs_provisioner_operator.Cluster.{Kind, Platform, nfs_provisioner}
use nfs_provisioner_operator.Cluster.Laws.{IsLawful, HasHelpers, key}
use nfs_provisioner_operator.Controller.Strings.{contains_string}
use nfs_provisioner_operator.Controller.Cleanup.{delete_external_resources}
use nfs_provisioner_operator.Controller.Reconcile.{
  ReconcileResult, done, finalizer_name, without_finalizer, finalize,
}

module _ (P : Platform) (L : IsLawful P) (H : HasHelpers P) where
  open P use {State, Error, get, update, is_zero}
  open L use {view}

  -- The state after the cleanup, and the removal of the finalizer from there.
  abbrev pub cleaned : State → State
  cleaned t = (delete_external_resources P t).1

  abbrev pub removal : NfsProvisioner → State → Option Error × State
  removal m t = update nfs_provisioner (without_finalizer P m) (cleaned t)

  module _ (m : NfsProvisioner) (req : NamespacedName)
      (named_req : key nfs_provisioner m ≡ req) where
    key-without_finalizer : key nfs_provisioner (without_finalizer P m) ≡ req
    key-without_finalizer =
        ap key_of (H.remove_finalizer_only m.metadata finalizer_name) ∙ named_req

    -- What the steps of `finalize` end in, where the finalizer is there.
    pub finalize_rule :
        (R : Outcome Error ReconcileResult × State → Type 0) (t : State)
        → contains_string m.metadata.finalizers finalizer_name ≡ true
        → ((o : Outcome Error ReconcileResult)
            → ((r : ReconcileResult) → o ≢ ok r)
            → R (o, (cleaned t)))
        → ((delete_external_resources P t).0 ≡ ok tt
            → (removal m t).0 ≡ none
            → R (ok done, (removal m t).1))
        → ((e : Error) → (removal m t).0 ≡ some e → R (err e, (removal m t).1))
        → R (finalize P m t)
    unfolding finalize
    finalize_rule R t marked stopped finished refused = rw marked (
        bind_rule R (delete_external_resources P)
          (λ _. call (update nfs_provisioner (without_finalizer P m)) >> pure done) t stopped
          (λ _ fine.
            call_then_rule R done (update nfs_provisioner (without_finalizer P m)) (cleaned t)
              (finished fine) refused))

    -- The finalizer is gone, and no other object is written by the last step.
    abbrev pub Finalized : Outcome Error ReconcileResult × State → Type 0
    Finalized p =
        (result : ReconcileResult)
        → p.0 ≡ ok result
        → (result ≡ done)
          × ((y : NfsProvisioner)
              → view p.1 nfs_provisioner req ≡ some y
              → ¬ Elem finalizer_name y.metadata.finalizers)

    pub finalize-Finalized :
        (t : State)
        → contains_string m.metadata.finalizers finalizer_name ≡ true
        → Finalized (finalize P m t)
    finalize-Finalized t marked =
        finalize_rule Finalized t marked (λ o stopped result h. absurd (stopped result h))
          (λ _ fine result h. (
            cc,
            λ y there listed. H.remove_finalizer_elem m.metadata finalizer_name (
                subst (Elem finalizer_name)
                  (L.update-done nfs_provisioner (without_finalizer P m) _ y fine (
                    subst (λ n. view (removal m t).1 nfs_provisioner n ≡ some y)
                      (sym key-without_finalizer) there)).4
                  listed),
          ))
          (λ e bad result h. cc)

    -- What the update of the resource leaves alone.
    pub finalize-frame :
        (t : State) (k : Kind) (n : NamespacedName)
        → contains_string m.metadata.finalizers finalizer_name ≡ true
        → k ≢ nfs_provisioner
        → view (finalize P m t).1 k n ≡ view (cleaned t) k n
    finalize-frame t k n marked other =
        finalize_rule (λ p. view p.1 k n ≡ view (cleaned t) k n) t marked (λ o _. refl)
          (λ _ _. written) (λ _ _. written)
      where
        written : view (removal m t).1 k n ≡ view (cleaned t) k n
        written = L.update-other nfs_provisioner (without_finalizer P m) _ k n (λ q. other q.0)
