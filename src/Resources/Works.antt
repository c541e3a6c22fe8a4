-- ===== src/Resources/Works.antt =====
-- What a first `EnsureAllResources` leaves in the cluster works together: an account of the view,
-- not of the builders.
pub mod Made
pub mod Admitted
use nfs_provisioner_operator.Base.{
  String, true, false, none, some, List, [], ◌∷◌, ◌≡◌, ◌≢◌, refl, sym, ◌∙◌, ap, subst, inl, inr,
  is_set, Bool-cases,
}
use nfs_provisioner_operator.Base.Lists.{Elem, All, All-Elem, All-map}
use nfs_provisioner_operator.Base.Exec.{ok}
use nfs_provisioner_operator.Kube.Meta.{ObjectMeta, NamespacedName, named}
use nfs_provisioner_operator.Kube.Core.{VolumeSource, host_path, claim, Service as CoreService}
use nfs_provisioner_operator.Kube.Apps.{Deployment as AppDeployment}
use nfs_provisioner_operator.Kube.Rbac.{
  Subject, PolicyRule, ClusterRole, ClusterRoleBinding, Role, RoleBinding,
}
use nfs_provisioner_operator.Api.{NfsProvisioner}
use nfs_provisioner_operator.Defaults
use nfs_provisioner_operator.Cluster.{
  Kind, Platform, security_context_constraints, persistent_volume_claim, service_account,
  cluster_role, cluster_role_binding, role, role_binding, deployment, service,
}
use nfs_provisioner_operator.Cluster.Laws.{View, IsLawful, HasHelpers, Stored, controller_of}
use nfs_provisioner_operator.Cluster.Growth.{Ref, Present}
use nfs_provisioner_operator.Resources.Refs.{
  cluster_role_ref, cluster_role_binding_ref, service_account_ref, role_ref, role_binding_ref,
  deployment_ref, service_ref, ClaimReady,
}
use nfs_provisioner_operator.Resources.Service
use nfs_provisioner_operator.Resources.Deployment
use nfs_provisioner_operator.Resources.Rbac
use nfs_provisioner_operator.Resources.Ownership.{builders-owned}
use nfs_provisioner_operator.Resources.All.{rest_managed, ensure_all, ensure_all_resources-IsReady}
use nfs_provisioner_operator.Resources.Agreement.{Agrees, Present-agree}
use nfs_provisioner_operator.Resources.Origin.{Built, IsMade}
use nfs_provisioner_operator.Resources.Origin.Constraints.{ensure_all_resources-Effect}

-- Some rule allows the verb on the resources of the group.
abbrev Allows : List PolicyRule → String → String → String → Type 0
Allows rules group resource verb =
    (r : PolicyRule) × Elem r rules
    × Elem group r.api_groups
    × Elem resource r.resources
    × Elem verb r.verbs

-- A claim that is mounted is there.
abbrev pub Mounts : View → String → VolumeSource → Type 0
Mounts v namespace (host_path _ _) = Unit {0}
Mounts v namespace (claim n) = Present v (persistent_volume_claim, named namespace n)

-- The deployment of the resource, and the account under which its pods run.
pub record Deployed (m : NfsProvisioner) (v : View) (d : AppDeployment) : Type 0 where
  pub here : v deployment (named m.metadata.namespace Defaults.deployment) ≡ some d
  pub owned : d.metadata.owner_references ≡ controller_of m ∷ []
  pub account : Present v (service_account, named m.metadata.namespace d.pod.service_account_name)
  pub mounts : All (λ volume. Mounts v m.metadata.namespace volume.source) d.pod.volumes
  pub selects : d.match_labels ≡ d.template_labels

abbrev account_of : NfsProvisioner → AppDeployment → Subject
account_of m d = record {
  kind = "ServiceAccount";
  name = d.pod.service_account_name;
  namespace = m.metadata.namespace;
}

-- A binding in the cluster gives the account a role in the cluster, which lets a provisioner make
-- and delete volumes and watch claims and classes.
pub record ClusterBound (m : NfsProvisioner) (v : View) (d : AppDeployment) : Type 0 where
  pub binding : ClusterRoleBinding
  pub here : v cluster_role_binding (named "" Defaults.cluster_role_binding) ≡ some binding
  pub lists : Elem (account_of m d) binding.subjects
  pub to_cluster_role : binding.role_ref.kind ≡ "ClusterRole"
  pub granted : ClusterRole
  pub role_here : v cluster_role (named "" binding.role_ref.name) ≡ some granted
  pub creates : Allows granted.rules "" "persistentvolumes" "create"
  pub deletes : Allows granted.rules "" "persistentvolumes" "delete"
  pub watches_claims : Allows granted.rules "" "persistentvolumeclaims" "watch"
  pub watches_classes : Allows granted.rules "storage.k8s.io" "storageclasses" "watch"

-- And one in its namespace lets it lock by endpoints.
pub record Bound (m : NfsProvisioner) (v : View) (d : AppDeployment) : Type 0 where
  pub binding : RoleBinding
  pub here : v role_binding (named m.metadata.namespace Defaults.role_binding) ≡ some binding
  pub lists : Elem (account_of m d) binding.subjects
  pub to_role : binding.role_ref.kind ≡ "Role"
  pub granted : Role
  pub role_here : v role (named m.metadata.namespace binding.role_ref.name) ≡ some granted
  pub creates : Allows granted.rules "" "endpoints" "create"
  pub updates : Allows granted.rules "" "endpoints" "update"

pub record Served (m : NfsProvisioner) (v : View) (d : AppDeployment) : Type 0 where
  pub served : CoreService
  pub here : v service (named m.metadata.namespace Defaults.service) ≡ some served
  pub owned : served.metadata.owner_references ≡ controller_of m ∷ []
  pub selects : served.selector ≡ d.template_labels

pub record Works (m : NfsProvisioner) (v : View) : Type 0 where
  pub pods : AppDeployment
  pub deployed : Deployed m v pods
  pub cluster_bound : ClusterBound m v pods
  pub bound : Bound m v pods
  pub served : Served m v pods

module _ (v w : View) (agree : Agrees v w) (m : NfsProvisioner) (d : AppDeployment) where
  Mounts-agree :
      (source : VolumeSource)
      → Mounts v m.metadata.namespace source
      → Mounts w m.metadata.namespace source
  Mounts-agree (host_path _ _) h = tt
  Mounts-agree (claim n) h = Present-agree v w agree persistent_volume_claim _ (λ p. cc) h

  Deployed-agree : Deployed m v d → Deployed m w d
  Deployed-agree h = record {
    here = agree deployment _ (λ p. cc) ∙ h.here;
    owned = h.owned;
    account = Present-agree v w agree service_account _ (λ p. cc) h.account;
    mounts =
        All-map (λ volume. Mounts v m.metadata.namespace volume.source)
          (λ volume. Mounts w m.metadata.namespace volume.source) d.pod.volumes
          (λ volume. Mounts-agree volume.source) h.mounts;
    selects = h.selects;
  }

  ClusterBound-agree : ClusterBound m v d → ClusterBound m w d
  ClusterBound-agree h = record {
    binding = h.binding;
    here = agree cluster_role_binding _ (λ p. cc) ∙ h.here;
    lists = h.lists;
    to_cluster_role = h.to_cluster_role;
    granted = h.granted;
    role_here = agree cluster_role _ (λ p. cc) ∙ h.role_here;
    creates = h.creates;
    deletes = h.deletes;
    watches_claims = h.watches_claims;
    watches_classes = h.watches_classes;
  }

  Bound-agree : Bound m v d → Bound m w d
  Bound-agree h = record {
    binding = h.binding;
    here = agree role_binding _ (λ p. cc) ∙ h.here;
    lists = h.lists;
    to_role = h.to_role;
    granted = h.granted;
    role_here = agree role _ (λ p. cc) ∙ h.role_here;
    creates = h.creates;
    updates = h.updates;
  }

  Served-agree : Served m v d → Served m w d
  Served-agree h = record {
    served = h.served;
    here = agree service _ (λ p. cc) ∙ h.here;
    owned = h.owned;
    selects = h.selects;
  }

pub Works-agree : (v w : View) → Agrees v w → (m : NfsProvisioner) → Works m v → Works m w
Works-agree v w agree m h = record {
  pods = h.pods;
  deployed = Deployed-agree v w agree m h.pods h.deployed;
  cluster_bound = ClusterBound-agree v w agree m h.pods h.cluster_bound;
  bound = Bound-agree v w agree m h.pods h.bound;
  served = Served-agree v w agree m h.pods h.served;
}
