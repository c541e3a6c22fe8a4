-- ===== src/Controller/Panics.antt =====
-- When a run of the reconciler panics.
use nfs_provisioner_operator.Base.{
  none, Option, ◌≡◌, ◌≢◌, refl, inl, inr, Bool-cases, Option-cases, subst, sym, if◌then◌else◌,
  arith,
}
use nfs_provisioner_operator.Base.Exec.{
  Outcome, ok, err, panic, Reply, found, failed, PanicsOnly, pure_panics, call_panics, bind_panics,
  call_then_rule, call, ask, pure, ◌>>◌,
}
use nfs_provisioner_operator.Kube.Meta.{NamespacedName}
use nfs_provisioner_operator.Api.{NfsProvisioner}
use nfs_provisioner_operator.Cluster.{Kind, Object, Platform, nfs_provisioner}
use nfs_provisioner_operator.Cluster.Laws.{HasHelpers}
use nfs_provisioner_operator.Resources.Manager.{new_resource_manager_set}
use nfs_provisioner_operator.Resources.Panics.{BadSize, ensure_all_resources-panic}
use nfs_provisioner_operator.Resources.All.{ensure_all}
use nfs_provisioner_operator.Controller.Validate.{validate}
use nfs_provisioner_operator.Controller.Strings.{contains_string}
use nfs_provisioner_operator.Controller.Cleanup.{delete_if_found, delete_external_resources}
use nfs_provisioner_operator.Controller.Reconcile.{
  ReconcileResult, done, again, finalizer_name, reported, report_invalid, register, finalize,
  reconcile_valid,
}
use nfs_provisioner_operator.Controller.Steps.{
  start, run, reconcile-unread, reconcile_found_valid, reconcile_found_invalid,
}

module _ (P : Platform) (m : NfsProvisioner) where
  open P use {State, Error, get, delete, update, update_status, is_zero}

  delete_if_found_panics :
      (k : Kind) (n : NamespacedName) → PanicsOnly (BadSize P m) (delete_if_found P k n)
  unfolding delete_if_found
  delete_if_found_panics k n =
      bind_panics (BadSize P m) (ask (get k n))
        (λ reply. elim reply [ found o ↦ call (delete k o) | failed _ ↦ pure tt ]) (λ s p. cc)
        by_reply
    where
      by_reply :
          (reply : Reply Error (Object k))
          → PanicsOnly
              (BadSize P m)
              (elim reply [ found o ↦ call (delete k o) | failed _ ↦ pure tt ])
      by_reply (found o) s = call_panics (BadSize P m) (delete k o) s
      by_reply (failed e) s = λ p. cc

  cleanup_panics : PanicsOnly (BadSize P m) (delete_external_resources P)
  unfolding delete_external_resources
  cleanup_panics =
      bind_panics (BadSize P m) _ _ (delete_if_found_panics _ _) (λ _. delete_if_found_panics _ _)

  written_panics :
      (f : State → Option Error × State) (r : ReconcileResult)
      → PanicsOnly (BadSize P m) (call f >> pure r)
  written_panics f r =
      bind_panics (BadSize P m) (call f) (λ _. pure r) (call_panics (BadSize P m) f)
        (λ _. pure_panics (BadSize P m) r)

  register_panics : PanicsOnly (BadSize P m) (register P m)
  unfolding register
  register_panics = elim (Bool-cases (contains_string m.metadata.finalizers finalizer_name)) [
    | inl old ↦ rw old (pure_panics (BadSize P m) again)
    | inr new ↦ rw new (written_panics _ again)
  ]

  finalize_panics : PanicsOnly (BadSize P m) (finalize P m)
  unfolding finalize
  finalize_panics = elim (Bool-cases (contains_string m.metadata.finalizers finalizer_name)) [
    | inl marked ↦
        rw marked (bind_panics (BadSize P m) _ _ cleanup_panics (λ _. written_panics _ done))
    | inr free ↦ rw free (pure_panics (BadSize P m) done)
  ]

  reconcile_valid_panics :
      PanicsOnly (BadSize P m) (reconcile_valid P (new_resource_manager_set P) m)
  unfolding reconcile_valid
  reconcile_valid_panics =
      bind_panics (BadSize P m) (ensure_all P m) _ (ensure_all_resources-panic P m) (λ _.
        elim (Bool-cases (is_zero m.metadata.deletion_timestamp)) [
          | inl p ↦ rw p register_panics
          | inr p ↦ rw p finalize_panics
        ])

  report_invalid_lem : (s : State) → (report_invalid P m s).0 ≢ panic
  unfolding report_invalid
  report_invalid_lem s =
      call_then_rule (λ p. p.0 ≢ panic) done (update_status nfs_provisioner (reported m)) s
        (λ _ p. cc) (λ _ _ p. cc)

module _ (P : Platform) (H : HasHelpers P) (req : NamespacedName) (s : P.State) where
  open P use {Error, get, is_not_found}

  abbrev PanicsRightly : Outcome Error ReconcileResult × P.State → Type 0
  PanicsRightly p =
      p.0 ≡ panic
      → (m : NfsProvisioner) × ((get nfs_provisioner req s).0 ≡ found m)
        × (validate m ≡ none)
        × BadSize P m

  unread_ne_panic : (e : Error) → (if is_not_found e then ok done else err e) ≢ panic
  unread_ne_panic e = ground arith

  by_reply :
      (reply : Reply Error NfsProvisioner)
      → (get nfs_provisioner req s).0 ≡ reply
      → PanicsRightly (run P req s)
  by_reply (failed e) missed =
      subst PanicsRightly (sym (reconcile-unread P _ req s H e missed))
        (λ p. absurd (unread_ne_panic e p))
  by_reply (found m) seen = elim (Option-cases (validate m)) [
    | inl valid ↦
        subst PanicsRightly (sym (reconcile_found_valid P _ req s m seen valid))
          (λ p. (m, seen, valid, reconcile_valid_panics P m (start P req s) p))
    | inr (message, invalid) ↦
        subst PanicsRightly (sym (reconcile_found_invalid P _ req s m message seen invalid))
          (λ p. absurd (report_invalid_lem P m (start P req s) p))
  ]

  -- A run panics only if it reads a valid resource with neither a host path nor a claim of the
  -- user's, whose storage size is no quantity.
  pub reconcile-panic :
      (run P req s).0 ≡ panic
      → (m : NfsProvisioner) × ((get nfs_provisioner req s).0 ≡ found m)
        × (validate m ≡ none)
        × BadSize P m
  reconcile-panic = by_reply (get nfs_provisioner req s).0 refl
