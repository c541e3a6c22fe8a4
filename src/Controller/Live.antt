-- ===== src/Controller/Live.antt =====
-- A run on a valid resource that is not being deleted.
use nfs_provisioner_operator.Base.{
  String, true, none, some, [], ◌≡◌, ◌≢◌, refl, ◌∙◌, ap, sym, subst, inl, inr, Bool-cases,
  if◌then◌else◌,
}
use nfs_provisioner_operator.Base.Lists.{Elem}
use nfs_provisioner_operator.Base.Exec.{Outcome, ok, found, call_then_rule, bind_rule}
use nfs_provisioner_operator.Kube.Meta.{ObjectMeta, NamespacedName, key_of}
use nfs_provisioner_operator.Api.{NfsProvisioner}
use nfs_provisioner_operator.Cluster.{Platform, nfs_provisioner}
use nfs_provisioner_operator.Cluster.Laws.{IsLawful, HasHelpers, key, served}
use nfs_provisioner_operator.Resources.Manager.{new_resource_manager_set}
use nfs_provisioner_operator.Resources.All.{
  IsReady, ensure_all, ensure_all_resources-IsReady, ensure_all_resources-frame,
  unmanaged_nfs_provisioner,
}
use nfs_provisioner_operator.Resources.Agreement.{Agrees, IsReady-agree}
use nfs_provisioner_operator.Controller.Validate.{validate}
use nfs_provisioner_operator.Controller.Strings.{contains_string}
use nfs_provisioner_operator.Controller.StringLaws.{contains_string_iff}
use nfs_provisioner_operator.Controller.Reconcile.{
  ReconcileResult, again, finalizer_name, with_finalizer, register, finalize, reconcile_valid,
}
use nfs_provisioner_operator.Controller.Steps.{
  start, run, ensured, start-found, reconcile_found_valid,
}

module _ (P : Platform) (L : IsLawful P) (H : HasHelpers P) where
  open P use {State, Error, get, update, is_zero}
  open L use {view}

  -- What the operator keeps of the resource when it writes the finalizer: the spec, as it is read
  -- back, and the deletion mark.
  abbrev pub KeepsSpec : NfsProvisioner → NfsProvisioner → Type 0
  KeepsSpec m y =
      (served y.spec ≡ served m.spec)
      × (y.metadata.deletion_timestamp ≡ m.metadata.deletion_timestamp)

  module _ (m : NfsProvisioner) (req : NamespacedName)
      (named_req : key nfs_provisioner m ≡ req) where
    -- The resource is in the cluster with the finalizer, the managed objects are as before, and the
    -- run is to be repeated.
    abbrev Registered : State → Outcome Error ReconcileResult × State → Type 0
    Registered t p =
        (result : ReconcileResult)
        → p.0 ≡ ok result
        → (result ≡ again)
          × Agrees (view t) (view p.1)
          × ((y : NfsProvisioner) × (view p.1 nfs_provisioner req ≡ some y)
              × KeepsSpec m y
              × Elem finalizer_name y.metadata.finalizers)

    key-with_finalizer : key nfs_provisioner (with_finalizer P m) ≡ req
    key-with_finalizer = ap key_of (H.add_finalizer_only m.metadata finalizer_name) ∙ named_req

    Elem-ne-nil : (a : String) (xs : _) → Elem a xs → xs ≢ []
    Elem-ne-nil a xs h e = subst (Elem a) e h

    register-Registered :
        (t : State) → view t nfs_provisioner req ≡ some m → Registered t (register P m t)
    unfolding register
    register-Registered t here =
        elim (Bool-cases (contains_string m.metadata.finalizers finalizer_name)) [
          | inl old ↦ rw old (λ result h. (
            cc,
            λ k n _. refl,
            (m, here, (refl, refl), (contains_string_iff _ finalizer_name).0 old),
          ))
          | inr new ↦ rw new (
              call_then_rule (Registered t) again (update nfs_provisioner (with_finalizer P m)) t
                (λ fine result h.
                  let (y, there) = L.update-stays nfs_provisioner (with_finalizer P m) t fine (
                    inr (
                      Elem-ne-nil finalizer_name _
                        (H.add_finalizer_elem m.metadata finalizer_name))) in
                  let stored = L.update-done nfs_provisioner (with_finalizer P m) t y fine there in
                  (
                    cc,
                    λ k n other.
                        L.update-other nfs_provisioner (with_finalizer P m) t k n (λ q. other q.0),
                    (
                      y,
                      subst
                          (λ n.
                            view (update nfs_provisioner (with_finalizer P m) t).1 nfs_provisioner n
                            ≡ some y)
                          key-with_finalizer there,
                      (
                        stored.0,
                        stored.3
                            ∙ ap (λ (o : ObjectMeta). o.deletion_timestamp)
                                (H.add_finalizer_only m.metadata finalizer_name),
                      ),
                      subst (Elem finalizer_name) (sym stored.4)
                          (H.add_finalizer_elem m.metadata finalizer_name),
                    ),
                  ))
                (λ e bad result h. cc))
        ]

  module _ (req : NamespacedName) (s : State) (m : NfsProvisioner)
      (seen : (get nfs_provisioner req s).0 ≡ found m) (valid : validate m ≡ none) where
    pub ensured-resource : view (ensured P m req s) nfs_provisioner req ≡ some m
    ensured-resource =
        ensure_all_resources-frame P L H m (start P req s) nfs_provisioner req
          (unmanaged_nfs_provisioner m req)
        ∙ (start-found P (new_resource_manager_set P) req s L m seen).0

    -- A run that succeeds on a resource that is not being deleted has ensured all, and then written
    -- the finalizer.
    pub live_parts :
        is_zero m.metadata.deletion_timestamp ≡ true
        → (result : ReconcileResult) → (run P req s).0 ≡ ok result
        → ((ensure_all P m (start P req s)).0 ≡ ok tt)
          × (result ≡ again)
          × Agrees (view (ensured P m req s)) (view (run P req s).1)
          × ((y : NfsProvisioner) × (view (run P req s).1 nfs_provisioner req ≡ some y)
              × KeepsSpec m y
              × Elem finalizer_name y.metadata.finalizers)
    live_parts alive =
        subst Parts (sym (reconcile_found_valid P (new_resource_manager_set P) req s m seen valid))
          (unfold reconcile_valid in
            bind_rule Parts (ensure_all P m)
              (λ _. if is_zero m.metadata.deletion_timestamp then register P m else finalize P m)
              (start P req s) (λ o stopped result h. absurd (stopped result h))
              (λ _ fine. rw alive (λ result h.
                let (asked, agree, kept) =
                  register-Registered m req
                    (start-found P (new_resource_manager_set P) req s L m seen).1
                    (ensured P m req s) ensured-resource result h in
                (fine, asked, agree, kept))))
      where
        Parts : Outcome Error ReconcileResult × State → Type 0
        Parts p =
            (result : ReconcileResult)
            → p.0 ≡ ok result
            → ((ensure_all P m (start P req s)).0 ≡ ok tt)
              × (result ≡ again)
              × Agrees (view (ensured P m req s)) (view p.1)
              × ((y : NfsProvisioner) × (view p.1 nfs_provisioner req ≡ some y)
                  × KeepsSpec m y
                  × Elem finalizer_name y.metadata.finalizers)

    -- If the resource that a run reads is valid and not being deleted, and the run succeeds, then
    -- the run asks to be repeated; the claim that the deployment is to use, the service account,
    -- the four objects of access control, the deployment, the service and the storage class are in
    -- the cluster; and so is the resource, with the deletion mark as read, with the operator's
    -- finalizer, and with a spec that is read back as the one that was read: the same but for an
    -- empty node selector, which the encoding does not tell from none, and for image settings that
    -- are missing, for which the defaults stand.
    pub reconcile-live :
        is_zero m.metadata.deletion_timestamp ≡ true
        → (result : ReconcileResult) → (run P req s).0 ≡ ok result
        → (result ≡ again)
          × IsReady m (view (run P req s).1)
          × ((y : NfsProvisioner) × (view (run P req s).1 nfs_provisioner req ≡ some y)
              × KeepsSpec m y
              × Elem finalizer_name y.metadata.finalizers)
    reconcile-live alive result h =
        let (fine, asked, agree, kept) = live_parts alive result h in
        (
          asked,
          IsReady-agree _ _ agree m (ensure_all_resources-IsReady P L H m (start P req s) fine),
          kept,
        )
