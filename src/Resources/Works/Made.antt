-- ===== src/Resources/Works/Made.antt =====
-- What the server makes of the objects that a first `EnsureAllResources` sends works together.
use nfs_provisioner_operator.Base.{
  none, some, [], ◌∷◌, ◌≡◌, refl, sym, ◌∙◌, subst, inl, inr, is_set, Bool-cases,
}
use nfs_provisioner_operator.Base.Lists.{All, All-Elem}
use nfs_provisioner_operator.Base.Exec.{ok}
use nfs_provisioner_operator.Kube.Meta.{NamespacedName, named}
use nfs_provisioner_operator.Kube.Apps.{Deployment as AppDeployment}
use nfs_provisioner_operator.Api.{NfsProvisioner}
use nfs_provisioner_operator.Defaults
use nfs_provisioner_operator.Cluster.{
  Kind, Platform, cluster_role, cluster_role_binding, role, role_binding, deployment, service,
}
use nfs_provisioner_operator.Cluster.Laws.{View, IsLawful, HasHelpers, Stored, controller_of}
use nfs_provisioner_operator.Cluster.Growth.{Ref, Present}
use nfs_provisioner_operator.Resources.Refs.{service_account_ref, role_ref, ClaimReady}
use nfs_provisioner_operator.Resources.Service
use nfs_provisioner_operator.Resources.Deployment
use nfs_provisioner_operator.Resources.Rbac
use nfs_provisioner_operator.Resources.Ownership.{builders-owned}
use nfs_provisioner_operator.Resources.All.{rest_managed, ensure_all, ensure_all_resources-IsReady}
use nfs_provisioner_operator.Resources.Origin.{IsMade}
use nfs_provisioner_operator.Resources.Origin.Constraints.{ensure_all_resources-Effect}
use nfs_provisioner_operator.Resources.Works.{Mounts, Deployed, ClusterBound, Bound, Served, Works}

module _ (P : Platform) (L : IsLawful P) (H : HasHelpers P) (m : NfsProvisioner) where
  open P use {State}
  open L use {view}

  -- What was missing and is there was made.
  pub made :
      (s : State) (k : Kind) (n : NamespacedName)
      → view s k n ≡ none
      → Present (view (ensure_all P m s).1) (k, n)
      → IsMade P m (view (ensure_all P m s).1) k n
  made s k n missing (x, here) = elim (ensure_all_resources-Effect P L H m s k n) [
    | inl (inl same) ↦ cc (here, same, missing)
    | inl (inr (_, is)) ↦ is
    | inr (this, user) ↦ cc (user.was, subst (λ (r : Ref). view s r.0 r.1 ≡ none) this missing)
  ]

  Mounts-volume_spec :
      (v : View)
      → ClaimReady m v
      → Mounts v m.metadata.namespace (Deployment.get_volume_spec m (Deployment.storage_type m))
  unfolding Deployment.get_volume_spec
  Mounts-volume_spec v ready = elim (Bool-cases (is_set m.spec.host_path_dir)) [
    | inl p ↦ rw p tt
    | inr p ↦ rw p (rw p at ready)
  ]

  -- What the server keeps of the deployment that the operator builds.
  pub record IsDeployment (d : AppDeployment) : Type 0 where
    pub owned : d.metadata.owner_references ≡ controller_of m ∷ []
    pub match_labels : d.match_labels ≡ Deployment.labels_for_nfs_provisioner m.metadata.name
    pub template_labels : d.template_labels ≡ Deployment.labels_for_nfs_provisioner m.metadata.name
    pub account : d.pod.service_account_name ≡ Defaults.service_account
    pub volumes :
        d.pod.volumes
        ≡ (record {
          name = "export-volume";
          source = Deployment.get_volume_spec m (Deployment.storage_type m);
        })
          ∷ []

  IsDeployment-Stored :
      (d : AppDeployment)
      → Stored deployment (Deployment.build_deployment P m (Deployment.storage_type m)) d
      → IsDeployment d
  unfolding Deployment.build_deployment
  IsDeployment-Stored d (owners, match, template, account, volumes, _) = record {
    owned = owners ∙ (builders-owned P m H).1.1.1.0;
    match_labels = match;
    template_labels = template;
    account = account;
    volumes = volumes;
  }

  Deployed-of :
      (v : View) (d : AppDeployment)
      → v deployment (named m.metadata.namespace Defaults.deployment) ≡ some d
      → IsDeployment d
      → ClaimReady m v
      → Present v (service_account_ref m)
      → Deployed m v d
  Deployed-of v d here is ready account = record {
    here = here;
    owned = is.owned;
    account = rw (is.account) account;
    mounts = rw (is.volumes) (Mounts-volume_spec v ready, tt);
    selects = is.match_labels ∙ sym (is.template_labels);
  }

  ClusterBound-of :
      (v : View) (d : AppDeployment)
      → IsDeployment d
      → IsMade P m v cluster_role (named "" Defaults.cluster_role)
      → IsMade P m v cluster_role_binding (named "" Defaults.cluster_role_binding)
      → ClusterBound m v d
  unfolding Rbac.build_cluster_role Rbac.build_cluster_role_binding
  ClusterBound-of v d is granted binding =
      let rules = subst (λ o. Stored cluster_role o granted.kept) granted.built granted.stored in
      let (subjects, role_ref) =
        subst (λ o. Stored cluster_role_binding o binding.kept) binding.built binding.stored in
      record {
        binding = binding.kept;
        here = binding.here;
        lists = rw (subjects, is.account) (inl refl);
        to_cluster_role = rw role_ref refl;
        granted = granted.kept;
        role_here = rw role_ref (granted.here);
        creates = rw rules (_, inl refl, inl refl, inl refl, inr (inr (inr (inl refl))));
        deletes = rw rules (_, inl refl, inl refl, inl refl, inr (inr (inr (inr (inl refl)))));
        watches_claims = rw rules (_, inr (inl refl), inl refl, inl refl, inr (inr (inl refl)));
        watches_classes =
            rw rules (_, inr (inr (inl refl)), inl refl, inl refl, inr (inr (inl refl)));
      }

  Bound-of :
      (v : View) (d : AppDeployment)
      → IsDeployment d
      → IsMade P m v role (named m.metadata.namespace Defaults.role)
      → IsMade P m v role_binding (named m.metadata.namespace Defaults.role_binding)
      → Bound m v d
  unfolding Rbac.build_role Rbac.build_role_binding
  Bound-of v d is granted binding =
      let (_, rules) = subst (λ o. Stored role o granted.kept) granted.built granted.stored in
      let (_, subjects, role_ref) =
        subst (λ o. Stored role_binding o binding.kept) binding.built binding.stored in
      record {
        binding = binding.kept;
        here = binding.here;
        lists = rw (subjects, is.account) (inl refl);
        to_role = rw role_ref refl;
        granted = granted.kept;
        role_here = rw role_ref (granted.here);
        creates = rw rules (_, inl refl, inl refl, inl refl, inr (inr (inr (inl refl))));
        updates = rw rules (_, inl refl, inl refl, inl refl, inr (inr (inr (inr (inl refl)))));
      }

  Served-of :
      (v : View) (d : AppDeployment)
      → IsDeployment d
      → IsMade P m v service (named m.metadata.namespace Defaults.service)
      → Served m v d
  unfolding Service.build_service
  Served-of v d is made =
      let (owners, selector) = subst (λ o. Stored service o made.kept) made.built made.stored in
      record {
        served = made.kept;
        here = made.here;
        owned = owners ∙ (builders-owned P m H).1.1.1.1.0;
        selects = selector ∙ sym (is.template_labels);
      }

  -- main
  pub ensure_all_resources-Works :
      (s : State)
      → All (λ (r : Ref). view s r.0 r.1 ≡ none) (rest_managed m)
      → (ensure_all P m s).0 ≡ ok tt
      → Works m (view (ensure_all P m s).1)
  ensure_all_resources-Works s missing fine =
      let absent = λ (k : Kind) (n : NamespacedName).
        All-Elem (λ (r : Ref). view s r.0 r.1 ≡ none) (rest_managed m) (k, n) missing in
      let ready = ensure_all_resources-IsReady P L H m s fine in
      let v = view (ensure_all P m s).1 in
      let (access_role, (access_binding, (in_role, in_binding))) = ready.access in
      let pods =
        made s deployment _ (absent _ _ (inr (inr (inr (inr (inr (inr (inl refl))))))))
          ready.deployment in
      let is =
        IsDeployment-Stored pods.kept
          (subst (λ o. Stored deployment o pods.kept) pods.built pods.stored) in
      record {
        pods = pods.kept;
        deployed = Deployed-of v pods.kept pods.here is ready.claim ready.account;
        cluster_bound =
            ClusterBound-of v pods.kept is
              (made s cluster_role _ (absent _ _ (inr (inr (inl refl)))) access_role)
              (made s cluster_role_binding _ (absent _ _ (inr (inr (inr (inl refl)))))
                access_binding);
        bound =
            Bound-of v pods.kept is
              (made s role _ (absent _ _ (inr (inr (inr (inr (inl refl)))))) in_role)
              (made s role_binding _ (absent _ _ (inr (inr (inr (inr (inr (inl refl)))))))
                in_binding);
        served = Served-of v pods.kept is (
            made s service _ (absent _ _ (inr (inr (inr (inr (inr (inr (inr (inl refl)))))))))
              ready.service);
      }
