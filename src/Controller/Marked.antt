-- ===== src/Controller/Marked.antt =====
-- What a run leaves of the operator's finalizer on a resource.
use nfs_provisioner_operator.Base.{
  Option, true, false, none, some, ◌≡◌, ◌≢◌, refl, ◌∙◌, ap, sym, subst, inl, inr, Bool-cases,
  Option-cases, ◌⊎◌,
}
use nfs_provisioner_operator.Base.Lists.{Elem}
use nfs_provisioner_operator.Base.Exec.{Outcome, Reply, ok, err, panic, found, failed}
use nfs_provisioner_operator.Kube.Meta.{NamespacedName}
use nfs_provisioner_operator.Api.{NfsProvisioner}
use nfs_provisioner_operator.Cluster.{Platform, nfs_provisioner}
use nfs_provisioner_operator.Cluster.Laws.{View, IsLawful, HasHelpers, key}
use nfs_provisioner_operator.Resources.Manager.{new_resource_manager_set}
use nfs_provisioner_operator.Resources.All.{ensure_all, unmanaged_nfs_provisioner}
use nfs_provisioner_operator.Controller.Validate.{validate}
use nfs_provisioner_operator.Controller.StringLaws.{contains_string_iff}
use nfs_provisioner_operator.Controller.Reconcile.{
  ReconcileResult, finalizer_name, register, without_finalizer,
}
use nfs_provisioner_operator.Controller.Steps.{
  start, start-found, run, ensured, reconcile-unread, reconcile-invalid,
}
use nfs_provisioner_operator.Controller.Live.{ensured-resource}
use nfs_provisioner_operator.Controller.Frame.{run-frame}
use nfs_provisioner_operator.Controller.Deletion.{reconcile_parts}
use nfs_provisioner_operator.Controller.Failed.{reconcile-failed, cleaned-resource}
use nfs_provisioner_operator.Controller.Finalize.{cleaned, finalize_rule}
use nfs_provisioner_operator.Controller.Cleanup.{delete_external_resources}

-- The resource is there, with the finalizer.
abbrev pub IsMarked : Option NfsProvisioner → Type 0
IsMarked o = (y : NfsProvisioner) × (o ≡ some y) × Elem finalizer_name y.metadata.finalizers

some_injective : {x y : NfsProvisioner} → some x ≡ some y → x ≡ y
some_injective h = cc

Outcome-cases : {E A : Type 0} (o : Outcome E A) → ((a : A) × (o ≡ ok a)) ⊎ ((a : A) → o ≢ ok a)
Outcome-cases (ok a) = inl (a, refl)
Outcome-cases (err e) = inr (λ a p. cc)
Outcome-cases panic = inr (λ a p. cc)

module _ (P : Platform) where
  -- What a run has done when it takes the finalizer of a resource away: the resource is being deleted,
  -- `EnsureAllResources` has succeeded, and after it the cleanup has.
  pub record Removes (m : NfsProvisioner) (n : NamespacedName) (s : P.State) : Type 0 where
    pub deleted : P.is_zero m.metadata.deletion_timestamp ≡ false
    pub ensured_all : (ensure_all P m (start P n s)).0 ≡ ok tt
    pub cleaned_up : (delete_external_resources P (ensured P m n s)).0 ≡ ok tt

  -- The run on a request reads a valid resource, takes its finalizer away, and succeeds.
  pub record Finalizes (n : NamespacedName) (s : P.State) : Type 0 where
    pub resource : NfsProvisioner
    pub seen : (P.get nfs_provisioner n s).0 ≡ found resource
    pub valid : validate resource ≡ none
    pub removes : Removes resource n s
    pub result : ReconcileResult
    pub succeeded : (run P n s).0 ≡ ok result

module _ (P : Platform) (L : IsLawful P) (H : HasHelpers P) where
  open P use {State, Error, get, is_zero}
  open L use {view, view-get}

  unread :
      (req n : NamespacedName) (s : State) (e : Error)
      → (get nfs_provisioner req s).0 ≡ failed e
      → view (run P req s).1 nfs_provisioner n ≡ view s nfs_provisioner n
  unread req n s e missed =
      rw (reconcile-unread P (new_resource_manager_set P) req s H e missed)
        (ap (λ (v : View). v nfs_provisioner n) (view-get nfs_provisioner req s))

  -- A run leaves all other resources as they are.
  pub run-other :
      (req n : NamespacedName) (s : State)
      → n ≢ req
      → view (run P req s).1 nfs_provisioner n ≡ view s nfs_provisioner n
  run-other req n s other =
      run-frame P L H req s nfs_provisioner n (λ q. other q.1)
        (λ m _. unmanaged_nfs_provisioner m n)

  module _ (n : NamespacedName) (s : State) (m : NfsProvisioner)
      (seen : (get nfs_provisioner n s).0 ≡ found m)
      (marked : Elem finalizer_name m.metadata.finalizers) where
    register-idle : (t : State) → (register P m t).1 ≡ t
    unfolding register
    register-idle t = rw ((contains_string_iff m.metadata.finalizers finalizer_name).1 marked) refl

    module _ (valid : validate m ≡ none) where
      here : view (ensured P m n s) nfs_provisioner n ≡ some m
      here = ensured-resource P L H n s m seen valid

      live_run :
          is_zero m.metadata.deletion_timestamp ≡ true
          → IsMarked (view (run P n s).1 nfs_provisioner n)
      live_run alive =
          reconcile_parts P L H n s m seen valid (λ p. IsMarked (view p.1 nfs_provisioner n))
            (λ _ _. (m, here, marked))
            (λ _. rw alive (
              m,
              ap (λ t. view t nfs_provisioner n) (register-idle (ensured P m n s)) ∙ here,
              marked,
            ))

      -- If a run reads a valid resource with the operator's finalizer, then after the run, whatever
      -- its outcome, the resource is in the cluster with the finalizer, or the resource is being
      -- deleted, `EnsureAllResources` has succeeded, and the cleanup after it has succeeded.
      pub reconcile-Removes : IsMarked (view (run P n s).1 nfs_provisioner n) ⊎ Removes P m n s
      reconcile-Removes = elim (Bool-cases (is_zero m.metadata.deletion_timestamp)) [
        | inl alive ↦ inl (live_run alive)
        | inr deleted ↦
            reconcile_parts P L H n s m seen valid (λ p. Kept p ⊎ Removes P m n s)
              (λ _ _. inl (m, here, marked))
              (λ ensured_all. rw deleted (
                finalize_rule P L H m n named_n (λ p. Kept p ⊎ Removes P m n s) (ensured P m n s)
                  ((contains_string_iff m.metadata.finalizers finalizer_name).1 marked)
                  (λ _ _. inl (m, still, marked))
                  (λ cleaned_up _. inr (record {
                    deleted = deleted;
                    ensured_all = ensured_all;
                    cleaned_up = cleaned_up;
                  }))
                  (λ e bad. inl (
                    m,
                    ap (λ (v : View). v nfs_provisioner n)
                          (L.update-failed nfs_provisioner (without_finalizer P m) _ e bad)
                        ∙ still,
                    marked,
                  ))))
      ]
        where
          Kept : Outcome Error ReconcileResult × State → Type 0
          Kept p = IsMarked (view p.1 nfs_provisioner n)

          named_n : key nfs_provisioner m ≡ n
          named_n = (start-found P (new_resource_manager_set P) n s L m seen).1

          still : view (cleaned P L H (ensured P m n s)) nfs_provisioner n ≡ some m
          still = cleaned-resource P L H n s m seen valid (ensured P m n s) here

      valid_run : IsMarked (view (run P n s).1 nfs_provisioner n) ⊎ Finalizes P n s
      valid_run = elim reconcile-Removes [
        | inl kept ↦ inl kept
        | inr removes ↦ elim (Outcome-cases (run P n s).0) [
          | inl (result, succeeded) ↦ inr (record {
            resource = m;
            seen = seen;
            valid = valid;
            removes = removes;
            result = result;
            succeeded = succeeded;
          })
          | inr stopped ↦ inl (m, reconcile-failed P L H n s m seen valid stopped, marked)
        ]
      ]

  pub own_run :
      (n : NamespacedName) (s : State)
      → IsMarked (view s nfs_provisioner n)
      → IsMarked (view (run P n s).1 nfs_provisioner n) ⊎ Finalizes P n s
  own_run n s (y, here, marked) = by_reply (get nfs_provisioner n s).0 refl
    where
      by_reply :
          (reply : Reply Error NfsProvisioner)
          → (get nfs_provisioner n s).0 ≡ reply
          → IsMarked (view (run P n s).1 nfs_provisioner n) ⊎ Finalizes P n s
      by_reply (failed e) missed = inl (y, unread n n s e missed ∙ here, marked)
      by_reply (found m) seen =
          let same : y ≡ m = some_injective (sym here ∙ L.get-found nfs_provisioner n s m seen) in
          let on_m =
            subst (λ (x : NfsProvisioner). Elem finalizer_name x.metadata.finalizers) same marked in
          elim (Option-cases (validate m)) [
            | inl valid ↦ valid_run n s m seen on_m valid
            | inr (message, invalid) ↦
                let (z, there, _, stored, _) =
                  reconcile-invalid P (new_resource_manager_set P) n s L m message seen invalid in
                inl (z, there, subst (Elem finalizer_name) (sym stored.4) on_m)
          ]
