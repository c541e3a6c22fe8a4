-- ===== src/Controller/Frame.antt =====
-- Which objects a run writes.
use nfs_provisioner_operator.Base.{
  refl, Option-cases, none, ◌≡◌, ◌∙◌, ap, inl, inr, Bool-cases, arith,
}
use nfs_provisioner_operator.Base.Lists.{Elem}
use nfs_provisioner_operator.Base.Exec.{Reply, failed, Outcome, found, call_then_rule}
use nfs_provisioner_operator.Kube.Meta.{NamespacedName, key_of}
use nfs_provisioner_operator.Api.{NfsProvisioner}
use nfs_provisioner_operator.Cluster.{Kind, Platform, nfs_provisioner}
use nfs_provisioner_operator.Cluster.Laws.{View, IsLawful, HasHelpers, IsOther, key}
use nfs_provisioner_operator.Resources.Manager.{new_resource_manager_set}
use nfs_provisioner_operator.Resources.All.{managed, ensure_all_resources-frame}
use nfs_provisioner_operator.Controller.Validate.{validate}
use nfs_provisioner_operator.Controller.Strings.{contains_string}
use nfs_provisioner_operator.Controller.CleanupLaws.{external, delete_external_resources-frame}
use nfs_provisioner_operator.Controller.Reconcile.{
  ReconcileResult, again, finalizer_name, with_finalizer, without_finalizer, register, finalize,
}
use nfs_provisioner_operator.Controller.Steps.{
  start, run, ensured, start-found, reconcile-unread, reconcile-invalid_frame,
}
use nfs_provisioner_operator.Controller.Finalize.{cleaned, finalize_rule}
use nfs_provisioner_operator.Controller.Deletion.{reconcile_parts}

-- What may be deleted is managed.
external-managed :
    (m : NfsProvisioner) (k : Kind) (n : NamespacedName)
    → Elem (k, n) external
    → Elem (k, n) (managed m)
external-managed m k n e = ground arith

module _ (P : Platform) (L : IsLawful P) (H : HasHelpers P) where
  open P use {State, Error, get, update, is_zero}
  open L use {view, view-get}

  module _ (m : NfsProvisioner) (req : NamespacedName) (named_req : key nfs_provisioner m ≡ req)
      (k : Kind) (n : NamespacedName) (differs : IsOther nfs_provisioner req k n) where
    abbrev Untouched : State → Outcome Error ReconcileResult × State → Type 0
    Untouched t p = view p.1 k n ≡ view t k n

    update-frame :
        (o : NfsProvisioner) (t : State)
        → key nfs_provisioner o ≡ req
        → view (update nfs_provisioner o t).1 k n ≡ view t k n
    update-frame o t named_o =
        L.update-other nfs_provisioner o t k n (λ q. differs (q.0, q.1 ∙ named_o))

    pub register-frame : (t : State) → Untouched t (register P m t)
    unfolding register
    register-frame t = elim (Bool-cases (contains_string m.metadata.finalizers finalizer_name)) [
      | inl old ↦ rw old
      | inr new ↦ rw new (
          call_then_rule (Untouched t) again (update nfs_provisioner (with_finalizer P m)) t
            (λ _. written) (λ _ _. written))
    ]
      where
        written : view (update nfs_provisioner (with_finalizer P m) t).1 k n ≡ view t k n
        written =
            update-frame (with_finalizer P m) t
              (ap key_of (H.add_finalizer_only m.metadata finalizer_name) ∙ named_req)

    pub finalize-other : (t : State) → ¬ Elem (k, n) external → Untouched t (finalize P m t)
    finalize-other t kept =
        elim (Bool-cases (contains_string m.metadata.finalizers finalizer_name)) [
          | inl marked ↦
              finalize_rule P L H m req named_req (Untouched t) t marked (λ _ _. first)
                (λ _ _. written ∙ first) (λ _ _. written ∙ first)
          | inr free ↦ unfold finalize in rw free
        ]
      where
        first : view (cleaned P L H t) k n ≡ view t k n
        first = delete_external_resources-frame P L t k n kept

        written :
            view (update nfs_provisioner (without_finalizer P m) (cleaned P L H t)).1 k n
            ≡ view (cleaned P L H t) k n
        written =
            update-frame (without_finalizer P m) (cleaned P L H t)
              (ap key_of (H.remove_finalizer_only m.metadata finalizer_name) ∙ named_req)

  -- A run on a valid resource, whether it succeeds, fails or panics, changes no object but the
  -- resource itself and the ten managed objects.
  pub reconcile-frame :
      (req : NamespacedName) (s : State) (m : NfsProvisioner) (k : Kind) (n : NamespacedName)
      → (get nfs_provisioner req s).0 ≡ found m
      → validate m ≡ none
      → IsOther nfs_provisioner req k n
      → ¬ Elem (k, n) (managed m)
      → view (run P req s).1 k n ≡ view s k n
  reconcile-frame req s m k n seen valid differs unmanaged =
      reconcile_parts P L H req s m seen valid (λ p. view p.1 k n ≡ view s k n) (λ _ _. same)
        (λ _. elim (Bool-cases (is_zero m.metadata.deletion_timestamp)) [
          | inl p ↦ rw p (register-frame m req named_req k n differs (ensured P m req s) ∙ same)
          | inr p ↦ rw p (
              finalize-other m req named_req k n differs (ensured P m req s)
                (λ e. unmanaged (external-managed m k n e))
              ∙ same)
        ])
    where
      named_req : key nfs_provisioner m ≡ req
      named_req = (start-found P (new_resource_manager_set P) req s L m seen).1

      same : view (ensured P m req s) k n ≡ view s k n
      same =
          ensure_all_resources-frame P L H m (start P req s) k n unmanaged
          ∙ ap (λ (v : View). v k n) (view-get nfs_provisioner req s)

  -- A run, on whichever resource, changes no object but the resource and the managed objects.
  pub run-frame :
      (req : NamespacedName) (s : State) (k : Kind) (n : NamespacedName)
      → IsOther nfs_provisioner req k n
      → ((m : NfsProvisioner) → (get nfs_provisioner req s).0 ≡ found m → ¬ Elem (k, n) (managed m))
      → view (run P req s).1 k n ≡ view s k n
  run-frame req s k n differs unmanaged = by_reply (get nfs_provisioner req s).0 refl
    where
      by_reply :
          (reply : Reply Error NfsProvisioner)
          → (get nfs_provisioner req s).0 ≡ reply
          → view (run P req s).1 k n ≡ view s k n
      by_reply (failed e) missed =
          rw (reconcile-unread P (new_resource_manager_set P) req s H e missed)
            (ap (λ (v : View). v k n) (view-get nfs_provisioner req s))
      by_reply (found m) seen = elim (Option-cases (validate m)) [
        | inl valid ↦ reconcile-frame req s m k n seen valid differs (unmanaged m seen)
        | inr (message, invalid) ↦
            reconcile-invalid_frame P (new_resource_manager_set P) req s L m message k n seen
              invalid differs
      ]
