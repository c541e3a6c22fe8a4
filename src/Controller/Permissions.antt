-- ===== src/Controller/Permissions.antt =====
-- The permissions that the markers above `Reconcile` in controllers/nfsprovisioner_controller.go
-- ask for, and the client of an operator that has no others.
pub mod Enough
pub mod Guarded
pub mod Denied
use nfs_provisioner_operator.Base.{
  String, Bool, true, false, ◌==◌, ◌&&◌, ◌||◌, Option, some, List, [], ◌∷◌, if◌then◌else◌,
}
use nfs_provisioner_operator.Base.Exec.{Reply, failed}
use nfs_provisioner_operator.Kube.Meta.{NamespacedName}
use nfs_provisioner_operator.Kube.Rbac.{PolicyRule}
use nfs_provisioner_operator.Cluster.{
  Kind, Object, Platform, nfs_provisioner, custom_resource_definition, security_context_constraints,
  persistent_volume_claim, service_account, cluster_role, cluster_role_binding, role, role_binding,
  deployment, service, storage_class,
}

-- `+kubebuilder:rbac`
pub record Marker : Type 0 where
  pub groups : List String
  pub resources : List String
  pub verbs : List String

abbrev marker : String → String → List String → Marker
marker group resource verbs = record {
  groups = group ∷ [];
  resources = resource ∷ [];
  verbs = verbs;
}

abbrev all_verbs : List String
all_verbs = "get" ∷ "list" ∷ "watch" ∷ "create" ∷ "update" ∷ "patch" ∷ "delete" ∷ []

abbrev pub markers : List Marker
markers =
    marker "cache.jhouse.com" "nfsprovisioners" all_verbs
    ∷ marker "cache.jhouse.com" "nfsprovisioners/status" ("get" ∷ "update" ∷ "patch" ∷ [])
    ∷ marker "cache.jhouse.com" "nfsprovisioners/finalizers" ("update" ∷ [])
    ∷ marker "rbac.authorization.k8s.io" "clusterroles" all_verbs
    ∷ marker "rbac.authorization.k8s.io" "clusterrolebindings" all_verbs
    ∷ marker "rbac.authorization.k8s.io" "roles" all_verbs
    ∷ marker "rbac.authorization.k8s.io" "rolebindings" all_verbs
    ∷ marker "security.openshift.io" "securitycontextconstraints" all_verbs
    ∷ marker "storage.k8s.io" "storageclasses" all_verbs
    ∷ marker "apps" "deployments" all_verbs
    ∷ marker "apps" "deployments/finalizers" ("update" ∷ [])
    ∷ marker "core" "services" all_verbs
    ∷ marker "core" "serviceaccounts" all_verbs
    ∷ marker "core" "endpoints" all_verbs
    ∷ marker "core" "events" all_verbs
    ∷ marker "policy" "podsecuritypolicies" ("use" ∷ [])
    ∷ marker "core" "persistentvolumes" all_verbs
    ∷ marker "core" "persistentvolumeclaims" all_verbs
    ∷ marker "core" "pods" ("get" ∷ "list" ∷ "watch" ∷ [])
    ∷ []

-- One that is not there.
abbrev pub definitions_marker : Marker
definitions_marker =
    marker "apiextensions.k8s.io" "customresourcedefinitions" ("get" ∷ "list" ∷ "watch" ∷ [])

abbrev listed : String → List String → Bool
listed x [] = false
listed x (y ∷ ys) = (y == x) || listed x ys

-- In a marker, `core` is the group with the empty name.
abbrev group_listed : String → List String → Bool
group_listed x [] = false
group_listed x (y ∷ ys) = ((if y == "core" then "" else y) == x) || group_listed x ys

-- Some marker asks for the verb on the resources of the group.
abbrev pub permits : List Marker → String → String → String → Bool
permits [] group resource verb = false
permits (m ∷ ms) group resource verb =
    (group_listed group m.groups && (listed resource m.resources && listed verb m.verbs))
    || permits ms group resource verb

abbrev group_of : Kind → String
group_of nfs_provisioner = "cache.jhouse.com"
group_of custom_resource_definition = "apiextensions.k8s.io"
group_of security_context_constraints = "security.openshift.io"
group_of cluster_role = "rbac.authorization.k8s.io"
group_of cluster_role_binding = "rbac.authorization.k8s.io"
group_of role = "rbac.authorization.k8s.io"
group_of role_binding = "rbac.authorization.k8s.io"
group_of deployment = "apps"
group_of storage_class = "storage.k8s.io"
group_of _ = ""

abbrev resource_of : Kind → String
resource_of nfs_provisioner = "nfsprovisioners"
resource_of custom_resource_definition = "customresourcedefinitions"
resource_of security_context_constraints = "securitycontextconstraints"
resource_of persistent_volume_claim = "persistentvolumeclaims"
resource_of service_account = "serviceaccounts"
resource_of cluster_role = "clusterroles"
resource_of cluster_role_binding = "clusterrolebindings"
resource_of role = "roles"
resource_of role_binding = "rolebindings"
resource_of deployment = "deployments"
resource_of service = "services"
resource_of storage_class = "storageclasses"

abbrev pub may : List Marker → String → Kind → Bool
may ms verb k = permits ms (group_of k) (resource_of k) verb

abbrev pub may_update_status : List Marker → Kind → Bool
may_update_status ms nfs_provisioner =
    permits ms "cache.jhouse.com" "nfsprovisioners/status" "update"
may_update_status ms _ = false

-- The client of an operator with the permissions of a list: any other call is answered by an error, and
-- does nothing.
module _ (ms : List Marker) (P : Platform) (forbidden : P.Error) where
  abbrev pub guard : Platform
  guard = record P {
    get = λ k n s. if may ms "get" k then P.get k n s else (failed forbidden, s);
    create = λ k o s. if may ms "create" k then P.create k o s else (some forbidden, s);
    update = λ k o s. if may ms "update" k then P.update k o s else (some forbidden, s);
    update_status =
        λ k o s. if may_update_status ms k then P.update_status k o s else (some forbidden, s);
    delete = λ k o s. if may ms "delete" k then P.delete k o s else (some forbidden, s);
  }
