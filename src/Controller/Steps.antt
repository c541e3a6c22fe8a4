-- ===== src/Controller/Steps.antt =====
-- The ways through `Reconcile`: the resource is not read, it is not valid, or it is valid.
use nfs_provisioner_operator.Base.{
  String, ◌<>◌, true, [], none, some, ◌≡◌, refl, ◌∙◌, ap, sym, subst, ◌⊎◌, inl, inr, Bool-cases,
  if◌then◌else◌,
}
use text.Mathlib.TextLemmas.{append-nil}
use nfs_provisioner_operator.Base.Texts.{
  contains, contains-more, contains_labelled, contains_behind,
}
use nfs_provisioner_operator.Base.Exec.{Outcome, ok, err, Exec, found, failed, call_then_rule}
use nfs_provisioner_operator.Kube.Meta.{NamespacedName}
use nfs_provisioner_operator.Api.{NfsProvisionerStatus, NfsProvisioner}
use nfs_provisioner_operator.Cluster.{Kind, Platform, nfs_provisioner}
use nfs_provisioner_operator.Cluster.Laws.{View, IsLawful, HasHelpers, IsOther, Stored, key}
use nfs_provisioner_operator.Resources.Manager.{ResourceManagerSet, new_resource_manager_set}
use nfs_provisioner_operator.Resources.All.{ensure_all}
use nfs_provisioner_operator.Controller.Validate.{validate}
use nfs_provisioner_operator.Controller.Reconcile.{
  ReconcileResult, done, invalid_message, reported, report_invalid, reconcile_valid, reconcile,
}

-- The status has an empty list of nodes, and its error names the three settings and their values.
abbrev pub Reports : NfsProvisioner → NfsProvisionerStatus → Type 0
Reports m status =
    (status.nodes ≡ some [])
    × (contains status.error ("pvc: " <> m.spec.pvc) ≡ true)
    × (contains status.error ("sc: " <> m.spec.sc_for_nfs_pvc) ≡ true)
    × (contains status.error ("hostPathDir: " <> m.spec.host_path_dir) ≡ true)

reported-Reports : (m : NfsProvisioner) → Reports m (reported m).status
reported-Reports m = (refl, pvc, sc, host)
  where
    pvc : contains (invalid_message m) ("pvc: " <> m.spec.pvc) ≡ true
    pvc = contains_labelled "pvc: " m.spec.pvc _

    sc : contains (invalid_message m) ("sc: " <> m.spec.sc_for_nfs_pvc) ≡ true
    sc = contains-more "pvc: " _ _ (
        contains_behind m.spec.pvc " | " "sc: " _ _
          (contains_labelled "sc: " m.spec.sc_for_nfs_pvc _))

    host : contains (invalid_message m) ("hostPathDir: " <> m.spec.host_path_dir) ≡ true
    host = contains-more "pvc: " _ _ (
        contains-more m.spec.pvc _ _ (
          contains-more " | sc: " _ _ (
            contains_behind m.spec.sc_for_nfs_pvc " | " "hostPathDir: " _ _ (
              subst
                (λ v.
                  contains ("hostPathDir: " <> v) ("hostPathDir: " <> m.spec.host_path_dir) ≡ true)
                (append-nil m.spec.host_path_dir)
                (contains_labelled "hostPathDir: " m.spec.host_path_dir "")))))

-- The state after the read of the resource, and the one in which its deletion mark is looked at.
module _ (P : Platform) where
  abbrev pub start : NamespacedName → P.State → P.State
  start req s = (P.get nfs_provisioner req s).1

  abbrev pub ensured : NfsProvisioner → NamespacedName → P.State → P.State
  ensured m req s = (ensure_all P m (start req s)).1

  -- A run of the reconciler that main.go sets up.
  abbrev pub run : NamespacedName → Exec P.State P.Error ReconcileResult
  run = reconcile P (new_resource_manager_set P)

module _ (P : Platform) (r : ResourceManagerSet P) (req : NamespacedName) (s : P.State) where
  open P use {State, Error, get, is_not_found, update_status}

  -- If the read of the resource fails, the run ends in the state after that read: without an error
  -- if the resource was not found, and with the error of the read otherwise.
  pub reconcile-unread :
      HasHelpers P
      → (e : Error) → (get nfs_provisioner req s).0 ≡ failed e
      → reconcile P r req s ≡ ((if is_not_found e then ok done else err e), start P req s)
  unfolding reconcile
  reconcile-unread H e missed = elim (Bool-cases (is_not_found e)) [
    | inl p ↦ rw (missed, p)
    | inr p ↦ rw (missed, p, H.ignore_not_found_lem e, p)
  ]

  pub reconcile_found_invalid :
      (m : NfsProvisioner) (message : String)
      → (get nfs_provisioner req s).0 ≡ found m
      → validate m ≡ some message
      → reconcile P r req s ≡ report_invalid P m (start P req s)
  unfolding reconcile
  reconcile_found_invalid m message seen invalid = rw (seen, invalid)

  pub reconcile_found_valid :
      (m : NfsProvisioner)
      → (get nfs_provisioner req s).0 ≡ found m
      → validate m ≡ none
      → reconcile P r req s ≡ reconcile_valid P r m (start P req s)
  unfolding reconcile
  reconcile_found_valid m seen valid = rw (seen, valid)

  module _ (L : IsLawful P) where
    open L use {view, view-get}

    pub start-found :
        (m : NfsProvisioner)
        → (get nfs_provisioner req s).0 ≡ found m
        → (view (start P req s) nfs_provisioner req ≡ some m) × (key nfs_provisioner m ≡ req)
    start-found m seen =
        let here = L.get-found nfs_provisioner req s m seen in
        (
          ap (λ (v : View). v nfs_provisioner req) (view-get nfs_provisioner req s) ∙ here,
          L.key-view nfs_provisioner req s m here,
        )

    -- How a run on a resource that is not valid ends: with the status written and no retry, or with
    -- the error of that write.
    abbrev pub ReportsInvalid : NfsProvisioner → Outcome Error ReconcileResult × State → Type 0
    ReportsInvalid m p =
        (y : NfsProvisioner) × (view p.1 nfs_provisioner req ≡ some y)
        × (y.spec ≡ m.spec)
        × Stored nfs_provisioner m y
        × ((p.0 ≡ ok done) × Reports m y.status ⊎ ((e : Error) × (p.0 ≡ err e)))

    abbrev OnlyResource : Outcome Error ReconcileResult × State → Type 0
    OnlyResource p =
        (k : Kind) (n : NamespacedName)
        → IsOther nfs_provisioner req k n
        → view p.1 k n ≡ view s k n

    report_invalid_lem :
        (m : NfsProvisioner)
        → view (start P req s) nfs_provisioner req ≡ some m
        → key nfs_provisioner m ≡ req
        → ReportsInvalid m (report_invalid P m (start P req s))
          × OnlyResource (report_invalid P m (start P req s))
    unfolding report_invalid
    report_invalid_lem m here named_req =
        let (y, there, spec, same, status) =
          L.update_status_self (reported m) (start P req s) m
            (subst (λ n. view (start P req s) nfs_provisioner n ≡ some m) (sym named_req) here) in
        let at_req : view (update_status nfs_provisioner (reported m) (start P req s)).1
              nfs_provisioner req
            ≡ some y =
          subst
            (λ n.
              view (update_status nfs_provisioner (reported m) (start P req s)).1 nfs_provisioner n
              ≡ some y)
            named_req there in
        let others : (k : Kind) (n : NamespacedName)
            → IsOther nfs_provisioner req k n
            → view (update_status nfs_provisioner (reported m) (start P req s)).1 k n ≡ view s k n =
          λ k n other.
            L.update_status-other (reported m) (start P req s) k n
              (λ q. other (q.0, q.1 ∙ named_req))
            ∙ ap (λ (v : View). v k n) (view-get nfs_provisioner req s) in
        call_then_rule (λ p. ReportsInvalid m p × OnlyResource p) done
          (update_status nfs_provisioner (reported m)) (start P req s)
          (λ fine. (
            (
              y,
              at_req,
              spec,
              same,
              inl (refl, subst (Reports m) (sym (status fine)) (reported-Reports m)),
            ),
            others,
          ))
          (λ e bad. ((y, at_req, spec, same, inr (e, refl)), others))

    -- The report on a resource that is not valid, and what it leaves alone.
    invalid_lem :
        (m : NfsProvisioner) (message : String)
        → (get nfs_provisioner req s).0 ≡ found m
        → validate m ≡ some message
        → ReportsInvalid m (reconcile P r req s) × OnlyResource (reconcile P r req s)
    invalid_lem m message seen invalid =
        subst (λ p. ReportsInvalid m p × OnlyResource p)
          (sym (reconcile_found_invalid m message seen invalid))
          (report_invalid_lem m (start-found m seen).0 (start-found m seen).1)

    -- A run on a resource that is not valid leaves the resource with the spec, name, deletion mark
    -- and finalizers that were read, the finalizers of a resource that is being deleted included.
    -- It succeeds without asking for another run and the status has an empty list of nodes and an
    -- error that contains each of the three settings behind its label (`pvc: `, `sc: `,
    -- `hostPathDir: `), or the run ends with an error.
    pub reconcile-invalid :
        (m : NfsProvisioner) (message : String)
        → (get nfs_provisioner req s).0 ≡ found m
        → validate m ≡ some message
        → ReportsInvalid m (reconcile P r req s)
    reconcile-invalid m message seen invalid = (invalid_lem m message seen invalid).0

    -- A run on a resource that is not valid changes no other object.
    pub reconcile-invalid_frame :
        (m : NfsProvisioner) (message : String) (k : Kind) (n : NamespacedName)
        → (get nfs_provisioner req s).0 ≡ found m
        → validate m ≡ some message
        → IsOther nfs_provisioner req k n
        → view (reconcile P r req s).1 k n ≡ view s k n
    reconcile-invalid_frame m message k n seen invalid = (invalid_lem m message seen invalid).1 k n
