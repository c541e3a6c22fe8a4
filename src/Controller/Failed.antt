-- ===== src/Controller/Failed.antt =====
-- A run on a valid resource that fails or panics.
use nfs_provisioner_operator.Base.{none, some, ◌≡◌, ◌≢◌, refl, ◌∙◌, ap, inl, inr, Bool-cases, arith}
use nfs_provisioner_operator.Base.Exec.{Outcome, ok, found, call_then_rule}
use nfs_provisioner_operator.Kube.Meta.{NamespacedName}
use nfs_provisioner_operator.Api.{NfsProvisioner}
use nfs_provisioner_operator.Cluster.{Platform, nfs_provisioner}
use nfs_provisioner_operator.Cluster.Laws.{View, IsLawful, HasHelpers, key}
use nfs_provisioner_operator.Resources.Manager.{new_resource_manager_set}
use nfs_provisioner_operator.Controller.Validate.{validate}
use nfs_provisioner_operator.Controller.Strings.{contains_string}
use nfs_provisioner_operator.Controller.CleanupLaws.{delete_external_resources-frame}
use nfs_provisioner_operator.Controller.Reconcile.{
  ReconcileResult, done, again, finalizer_name, with_finalizer, without_finalizer, register,
  finalize,
}
use nfs_provisioner_operator.Controller.Steps.{run, ensured, start-found}
use nfs_provisioner_operator.Controller.Finalize.{cleaned, finalize_rule}
use nfs_provisioner_operator.Controller.Live.{ensured-resource}
use nfs_provisioner_operator.Controller.Deletion.{reconcile_parts}

module _ (P : Platform) (L : IsLawful P) (H : HasHelpers P) where
  open P use {State, Error, get, update, is_zero}
  open L use {view}

  module _ (req : NamespacedName) (s : State) (m : NfsProvisioner)
      (seen : (get nfs_provisioner req s).0 ≡ found m) (valid : validate m ≡ none) where
    named_req : key nfs_provisioner m ≡ req
    named_req = (start-found P (new_resource_manager_set P) req s L m seen).1

    abbrev Kept : Outcome Error ReconcileResult × State → Type 0
    Kept p = ((result : ReconcileResult) → p.0 ≢ ok result) → view p.1 nfs_provisioner req ≡ some m

    register-Kept : (t : State) → view t nfs_provisioner req ≡ some m → Kept (register P m t)
    unfolding register
    register-Kept t here =
        elim (Bool-cases (contains_string m.metadata.finalizers finalizer_name)) [
          | inl old ↦ rw old (λ h. absurd (h again refl))
          | inr new ↦ rw new (
              call_then_rule Kept again (update nfs_provisioner (with_finalizer P m)) t
                (λ fine h. absurd (h again refl))
                (λ e bad h.
                  ap (λ (v : View). v nfs_provisioner req)
                    (L.update-failed nfs_provisioner (with_finalizer P m) t e bad)
                  ∙ here))
        ]

    pub cleaned-resource :
        (t : State)
        → view t nfs_provisioner req ≡ some m
        → view (cleaned P L H t) nfs_provisioner req ≡ some m
    cleaned-resource t here =
        delete_external_resources-frame P L t nfs_provisioner req (λ e. ground arith) ∙ here

    finalize-Kept : (t : State) → view t nfs_provisioner req ≡ some m → Kept (finalize P m t)
    finalize-Kept t here =
        elim (Bool-cases (contains_string m.metadata.finalizers finalizer_name)) [
          | inl marked ↦
              finalize_rule P L H m req named_req Kept t marked
                (λ o stopped h. cleaned-resource t here) (λ _ fine h. absurd (h done refl))
                (λ e bad h.
                  ap (λ (v : View). v nfs_provisioner req)
                    (L.update-failed nfs_provisioner (without_finalizer P m) (cleaned P L H t) e
                      bad)
                  ∙ cleaned-resource t here)
          | inr free ↦ unfold finalize in rw free (λ h. absurd (h done refl))
        ]

    -- A run on a valid resource that fails or panics leaves the resource in the cluster exactly as
    -- it was read.
    pub reconcile-failed :
        ((result : ReconcileResult) → (run P req s).0 ≢ ok result)
        → view (run P req s).1 nfs_provisioner req ≡ some m
    reconcile-failed =
        reconcile_parts P L H req s m seen valid Kept (λ o _ _. here)
          (λ _. elim (Bool-cases (is_zero m.metadata.deletion_timestamp)) [
            | inl p ↦ rw p (register-Kept (ensured P m req s) here)
            | inr p ↦ rw p (finalize-Kept (ensured P m req s) here)
          ])
      where
        here : view (ensured P m req s) nfs_provisioner req ≡ some m
        here = ensured-resource P L H req s m seen valid
