-- ===== src/Controller/Settle.antt =====
-- Runs on a resource that is not being deleted come to rest.
use nfs_provisioner_operator.Base.{
  true, none, some, ◌≡◌, sym, ◌∙◌, ap, subst, inl, inr, if◌then◌else◌,
}
use nfs_provisioner_operator.Base.Lists.{Elem}
use nfs_provisioner_operator.Base.Exec.{ok, found, continue_state}
use nfs_provisioner_operator.Kube.Meta.{NamespacedName}
use nfs_provisioner_operator.Api.{NfsProvisionerSpec, NfsProvisioner}
use nfs_provisioner_operator.Cluster.{
  Platform, nfs_provisioner, security_context_constraints, custom_resource_definition,
}
use nfs_provisioner_operator.Cluster.Laws.{View, IsLawful, HasHelpers, key, served}
use nfs_provisioner_operator.Resources.Manager.{new_resource_manager_set}
use nfs_provisioner_operator.Resources.Scc.{crd_key, scc_key, user_exists}
use nfs_provisioner_operator.Resources.All.{
  IsReady, IsReady-of, rest_of, ensure_all, ensure_all_resources-IsReady,
}
use nfs_provisioner_operator.Resources.Settles.{
  CrdKnown, SccSettled, ensure_all_resources-SccSettled, ensure_all_resources-quiet,
}
use nfs_provisioner_operator.Resources.Agreement.{Agrees, IsReady-agree}
use nfs_provisioner_operator.Controller.Validate.{validate}
use nfs_provisioner_operator.Controller.StringLaws.{contains_string_iff}
use nfs_provisioner_operator.Controller.Reconcile.{
  ReconcileResult, finalizer_name, register, finalize, reconcile_valid,
}
use nfs_provisioner_operator.Controller.Steps.{
  start, run, ensured, start-found, reconcile_found_valid,
}
use nfs_provisioner_operator.Controller.Live.{live_parts}

some_injective : (x y : NfsProvisioner) → some x ≡ some y → x ≡ y
some_injective x y p = cc

-- What is ready for a resource is ready for every resource of its namespace with its spec, as it is
-- read back.
module _ (m y : NfsProvisioner) (spec : served y.spec ≡ served m.spec)
    (namespace : y.metadata.namespace ≡ m.metadata.namespace) where
  host_path : y.spec.host_path_dir ≡ m.spec.host_path_dir
  host_path = ap (λ (s : NfsProvisionerSpec). s.host_path_dir) spec

  claim : y.spec.pvc ≡ m.spec.pvc
  claim = ap (λ (s : NfsProvisionerSpec). s.pvc) spec

  claim_class : y.spec.sc_for_nfs_pvc ≡ m.spec.sc_for_nfs_pvc
  claim_class = ap (λ (s : NfsProvisionerSpec). s.sc_for_nfs_pvc) spec

  class : y.spec.sc_for_nfs_provisioner ≡ m.spec.sc_for_nfs_provisioner
  class = ap (λ (s : NfsProvisionerSpec). s.sc_for_nfs_provisioner) spec

  IsReady-same : (v : View) → IsReady m v → IsReady y v
  IsReady-same v r = IsReady-of y v (rw (host_path, claim, class, namespace) (rest_of m v r))

  validate-same : validate m ≡ none → validate y ≡ none
  unfolding validate
  validate-same h = rw (host_path, claim, claim_class) h

module _ (P : Platform) (L : IsLawful P) (H : HasHelpers P) where
  open P use {State, Error, get, is_zero}
  open L use {view, view-get}

  SccSettled-same :
      (m y : NfsProvisioner) (v : View)
      → y.metadata.namespace ≡ m.metadata.namespace
      → SccSettled P L H m v
      → SccSettled P L H y v
  SccSettled-same m y v namespace (inl (scc, there, listed)) =
      inl (scc, there, subst (λ n. user_exists n scc.users ≡ true) (sym namespace) listed)
  SccSettled-same m y v namespace (inr absent) = inr absent

  SccSettled-agree :
      (m : NfsProvisioner) (v w : View) → Agrees v w → SccSettled P L H m v → SccSettled P L H m w
  SccSettled-agree m v w agree (inl (scc, there, listed)) =
      inl (scc, agree security_context_constraints scc_key (λ p. cc) ∙ there, listed)
  SccSettled-agree m v w agree (inr absent) =
      inr (agree custom_resource_definition crd_key (λ p. cc) ∙ absent)

  -- A run on a valid resource that has the finalizer and all that it needs writes nothing.
  reconcile-quiet :
      (req : NamespacedName) (s : State) (m : NfsProvisioner)
      → (get nfs_provisioner req s).0 ≡ found m
      → validate m ≡ none
      → is_zero m.metadata.deletion_timestamp ≡ true
      → Elem finalizer_name m.metadata.finalizers
      → SccSettled P L H m (view s)
      → IsReady m (view s)
      → view (run P req s).1 ≡ view s
  reconcile-quiet req s m seen valid alive marked settled ready =
      subst (λ p. view p.1 ≡ view s)
        (sym (reconcile_found_valid P (new_resource_manager_set P) req s m seen valid))
        (unfold reconcile_valid in
          continue_state (λ t. view t ≡ view s)
            (λ _. if is_zero m.metadata.deletion_timestamp then register P m else finalize P m)
            (ensure_all P m (start P req s)).0 (ensured P m req s) same
            (λ _ _.
              rw alive
                (unfold register in rw ((contains_string_iff _ finalizer_name).1 marked) same)))
    where
      read : view (start P req s) ≡ view s
      read = view-get nfs_provisioner req s

      same : view (ensured P m req s) ≡ view s
      same =
          ensure_all_resources-quiet P L H m (start P req s)
            (subst (SccSettled P L H m) (sym read) settled) (subst (IsReady m) (sym read) ready)
          ∙ read

  -- After a run that succeeds on a valid resource that is not being deleted, a next run that reads
  -- the resource leaves every object of the cluster as it is. The definition of the security
  -- context constraints is to be readable or absent at the first run.
  pub reconcile-settles :
      (req : NamespacedName) (s : State) (m y : NfsProvisioner) (result : ReconcileResult)
      → (get nfs_provisioner req s).0 ≡ found m
      → validate m ≡ none
      → is_zero m.metadata.deletion_timestamp ≡ true
      → CrdKnown P L H m (start P req s)
      → (run P req s).0 ≡ ok result
      → (get nfs_provisioner req (run P req s).1).0 ≡ found y
      → view (run P req (run P req s).1).1 ≡ view (run P req s).1
  reconcile-settles req s m y result seen valid alive known h seen_again =
      let (fine, _, agree, (z, there, kept, marked)) =
        live_parts P L H req s m seen valid alive result h in
      let here = L.get-found nfs_provisioner req (run P req s).1 y seen_again in
      let same : z ≡ y = some_injective z y (sym there ∙ here) in
      let spec : served y.spec ≡ served m.spec =
        subst (λ (x : NfsProvisioner). served x.spec ≡ served m.spec) same kept.0 in
      let named : key nfs_provisioner y ≡ key nfs_provisioner m =
        L.key-view nfs_provisioner req (run P req s).1 y here
        ∙ sym (start-found P (new_resource_manager_set P) req s L m seen).1 in
      let namespace : y.metadata.namespace ≡ m.metadata.namespace =
        ap (λ (n : NamespacedName). n.namespace) named in
      reconcile-quiet req (run P req s).1 y seen_again (validate-same m y spec namespace valid)
        (subst (λ (x : NfsProvisioner). is_zero x.metadata.deletion_timestamp ≡ true) same
          (ap is_zero kept.1 ∙ alive))
        (subst (λ (x : NfsProvisioner). Elem finalizer_name x.metadata.finalizers) same marked)
        (SccSettled-same m y (view (run P req s).1) namespace (
          SccSettled-agree m (view (ensured P m req s)) (view (run P req s).1) agree
            (ensure_all_resources-SccSettled P L H m (start P req s) known fine)))
        (IsReady-same m y spec namespace _
          (IsReady-agree _ _ agree m (ensure_all_resources-IsReady P L H m (start P req s) fine)))
