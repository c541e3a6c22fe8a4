-- ===== src/Resources/Consistency.antt =====
-- That the objects which the managers build fit together.
use nfs_provisioner_operator.Base.{
  String, Bool, List, true, false, Option, ◌≢◌, ◌≡◌, refl, ◌∙◌, ap, sym, subst, inl, inr, map,
  Bool-cases, is_set,
}
use nfs_provisioner_operator.Base.Lists.{Elem, All}
use nfs_provisioner_operator.Base.Exec.{ok}
use nfs_provisioner_operator.Kube.Meta.{ObjectMeta, NamespacedName, zero_meta, named, key_of}
use nfs_provisioner_operator.Kube.Core.{
  Volume, VolumeSource, host_path, claim, Service as CoreService, ServicePort, ContainerPort,
  PodSpec,
}
use nfs_provisioner_operator.Kube.Security.{
  SecurityContextConstraints, fs_type_persistent_volume_claim, fs_type_host_path,
}
use nfs_provisioner_operator.Kube.Rbac.{RoleRef, Subject}
use nfs_provisioner_operator.Kube.Apps.{Deployment as AppDeployment}
use nfs_provisioner_operator.Api.{NfsProvisioner}
use nfs_provisioner_operator.Defaults
use nfs_provisioner_operator.Cluster.{Platform, persistent_volume_claim}
use nfs_provisioner_operator.Cluster.Laws.{IsLawful, HasHelpers, capabilities}
use nfs_provisioner_operator.Cluster.Growth.{Present}
use nfs_provisioner_operator.Resources.Promises.{key-owned}
use nfs_provisioner_operator.Resources.All.{ensure_all, ensure_all_resources-IsReady}
use nfs_provisioner_operator.Resources.ServiceAccount
use nfs_provisioner_operator.Resources.Service
use nfs_provisioner_operator.Resources.Pvc
use nfs_provisioner_operator.Resources.Scc
use nfs_provisioner_operator.Resources.Deployment
use nfs_provisioner_operator.Resources.Rbac

-- What the constraints have to allow for a volume.
abbrev pub AdmitsSource : Bool → List String → VolumeSource → Type 0
AdmitsSource host_dirs volumes (host_path _ _) = (host_dirs ≡ true) × Elem fs_type_host_path volumes
AdmitsSource host_dirs volumes (claim _) = Elem fs_type_persistent_volume_claim volumes

-- And for the capabilities that a container adds and drops.
abbrev pub AdmitsCapabilities :
    (allowed required_drop : List String) → List String × List String → Type 0
AdmitsCapabilities allowed required_drop (added, dropped) =
    All (λ x. Elem x allowed) added × All (λ x. Elem x dropped) required_drop

-- What they have to allow for a pod: its account, its capabilities, and its volumes.
abbrev pub Admits : SecurityContextConstraints → String → PodSpec → Type 0
Admits scc namespace pod =
    Elem (Scc.user_to_add namespace) scc.users
    × All (AdmitsCapabilities scc.allowed_capabilities scc.required_drop_capabilities)
        (map capabilities pod.containers)
    × All (λ v. AdmitsSource scc.allow_host_dir_volume_plugin scc.volumes v.source) pod.volumes

abbrev to_container : ServicePort → ContainerPort
to_container p = record { name = p.name; container_port = p.port; protocol = p.protocol }

-- The service finds the pods of the deployment, and each of its ports is a port of their container.
abbrev pub Reaches : CoreService → AppDeployment → Type 0
Reaches s d =
    (s.selector ≡ d.template_labels)
    × (d.match_labels ≡ d.template_labels)
    × All (λ c. c.ports ≡ map to_container s.ports) d.pod.containers

host_path-ne-claim :
    {d n : String} {t : Option String} → ◌≢◌ {A = VolumeSource} (host_path d t) (claim n)
host_path-ne-claim p = cc

claim_injective : (i j : String) → claim i ≡ claim j → i ≡ j
claim_injective i j p = cc

module _ (P : Platform) (m : NfsProvisioner) where
  abbrev pub pod : PodSpec
  pod = (Deployment.build_deployment P m (Deployment.storage_type m)).pod

  -- The security context constraints that the operator builds admit the pods of the deployment that
  -- it builds: they list the service account of the resource's namespace, every capability that a
  -- container adds is allowed, every capability that has to be dropped is dropped, and every kind
  -- of volume is allowed.
  pub build_scc-Admits : Admits (Scc.build_scc P m) m.metadata.namespace (pod)
  unfolding Scc.build_scc Deployment.build_deployment Deployment.nfs_container
      Deployment.get_volume_spec
  build_scc-Admits = elim (Bool-cases (is_set m.spec.host_path_dir)) [
    | inl p ↦ rw p (inl refl, (caps, tt), ((refl, inr (inr (inr (inr (inl refl))))), tt))
    | inr p ↦ rw p (inl refl, (caps, tt), (inr (inr (inr (inl refl))), tt))
  ]
    where
      caps :
          AdmitsCapabilities
            (Scc.build_scc P m).allowed_capabilities
            (Scc.build_scc P m).required_drop_capabilities
            (capabilities (Deployment.nfs_container m))
      caps = (
        (inl refl, (inr (inl refl), tt)),
        (inl refl, (inr (inl refl), (inr (inr (inl refl)), tt))),
      )

  -- The service selects the labels that the deployment gives its pods and selects itself, and the
  -- ports of each container are those of the service, with the same names, numbers and protocols.
  pub build_service-Reaches :
      Reaches
        (Service.build_service P m)
        (Deployment.build_deployment P m (Deployment.storage_type m))
  unfolding Service.build_service Deployment.build_deployment Deployment.nfs_container
  build_service-Reaches = (refl, refl, (refl, tt))

  -- The account that is built.
  abbrev IsAccount : NamespacedName → Type 0
  IsAccount n = n ≡ key_of (ServiceAccount.build_service_account P m).metadata

  -- A binding's reference is to a role of the kind and name, and its subjects are the account that
  -- is built, which is among them, and no other.
  abbrev pub BindsAccount : RoleRef → List Subject → String → String → Type 0
  BindsAccount role_ref subjects kind name =
      (role_ref.api_group ≡ "rbac.authorization.k8s.io")
      × (role_ref.kind ≡ kind)
      × (role_ref.name ≡ name)
      × ((s : Subject) × Elem s subjects)
      × All (λ s. (s.kind ≡ "ServiceAccount") × IsAccount (named s.namespace s.name)) subjects

  abbrev pub Grants : Type 0
  Grants =
      BindsAccount (Rbac.build_cluster_role_binding P m).role_ref
        (Rbac.build_cluster_role_binding P m).subjects "ClusterRole"
        (Rbac.build_cluster_role P m).metadata.name
      × BindsAccount (Rbac.build_role_binding P m).role_ref (Rbac.build_role_binding P m).subjects
          "Role" (Rbac.build_role P m).metadata.name
      × ((Rbac.build_role_binding P m).metadata.namespace
          ≡ (Rbac.build_role P m).metadata.namespace)
      × IsAccount (
          named (Deployment.build_deployment P m (Deployment.storage_type m)).metadata.namespace
            pod.service_account_name)

  module _ (H : HasHelpers P) where
    -- Each of the two bindings that the operator builds refers, by group, kind and name, to the
    -- role that it builds, that in a namespace to one of the same namespace; each lists the service
    -- account that it builds, as an account, and no one else; and that is the account under which
    -- the pods of the deployment run.
    pub bindings-Grants : Grants
    unfolding Rbac.build_cluster_role Rbac.build_cluster_role_binding Rbac.build_role
        Rbac.build_role_binding Deployment.build_deployment ServiceAccount.build_service_account
    bindings-Grants = (
      (
        refl,
        refl,
        sym (ap (λ (o : ObjectMeta). o.name) (H.references_only m _)),
        (Rbac.subject m, inl refl),
        ((refl, account), tt),
      ),
      (
        refl,
        refl,
        sym (ap (λ (o : ObjectMeta). o.name) (H.references_only m _)),
        (Rbac.subject m, inl refl),
        ((refl, account), tt),
      ),
      ap (λ (o : ObjectMeta). o.namespace) (H.references_only m _)
          ∙ sym (ap (λ (o : ObjectMeta). o.namespace) (H.references_only m _)),
      ap (λ (o : ObjectMeta). named o.namespace Defaults.service_account) (H.references_only m _)
          ∙ account,
    )
      where
        account :
            named m.metadata.namespace Defaults.service_account
            ≡ key_of
                (P.set_controller_reference m (record zero_meta {
                  name = Defaults.service_account;
                  namespace = m.metadata.namespace;
                })).1
        account = sym (key-owned P H m _)

    claim_used :
        (n : String)
        → Deployment.get_volume_spec m (Deployment.storage_type m) ≡ claim n
        → (is_set m.spec.host_path_dir ≡ false) × (n ≡ Pvc.pvc_name m)
    unfolding Deployment.get_volume_spec
    claim_used n e = elim (Bool-cases (is_set m.spec.host_path_dir)) [
      | inl p ↦ absurd (host_path-ne-claim (rw p at e))
      | inr p ↦ (p, claim_injective _ _ (sym (rw p at e)))
    ]

    volume-source :
        (v : Volume)
        → Elem v pod.volumes
        → v.source ≡ Deployment.get_volume_spec m (Deployment.storage_type m)
    unfolding Deployment.build_deployment
    volume-source v (inr none_) = absurd none_
    volume-source v (inl e) = sym (ap (λ (w : Volume). w.source) e)

    -- If `EnsureAllResources` succeeds, every claim that is a volume of the pods of the deployment
    -- that the operator builds is in the cluster, in the namespace of the resource.
    pub ensure_all_resources-claim :
        (L : IsLawful P) (s : P.State)
        → (ensure_all P m s).0 ≡ ok tt
        → (v : Volume) (n : String) → Elem v pod.volumes
        → v.source ≡ claim n
        → Present
            (L.view (ensure_all P m s).1)
            (persistent_volume_claim, named m.metadata.namespace n)
    ensure_all_resources-claim L s fine v n mounted is_claim =
        let (no_path, named_n) = claim_used n (sym (volume-source v mounted) ∙ is_claim) in
        subst
          (λ i.
            Present (L.view (ensure_all P m s).1)
              (persistent_volume_claim, named m.metadata.namespace i))
          (sym named_n) (rw no_path at (ensure_all_resources-IsReady P L H m s fine).claim)
