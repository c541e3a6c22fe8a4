-- ===== src/Resources/Rbac.antt =====
-- controllers/resources/rbac.go
use nfs_provisioner_operator.Base.{String, List, [], ◌∷◌, if◌then◌else◌}
use nfs_provisioner_operator.Base.Exec.{found, failed, ask, call, pure, fail, ◌>>=◌, ◌>>◌}
use nfs_provisioner_operator.Kube.Meta.{zero_meta, named}
use nfs_provisioner_operator.Kube.Rbac.{
  PolicyRule, Subject, ClusterRole, ClusterRoleBinding, Role, RoleBinding,
}
use nfs_provisioner_operator.Api.{NfsProvisioner}
use nfs_provisioner_operator.Defaults
use nfs_provisioner_operator.Cluster.{
  Platform, cluster_role, cluster_role_binding, role, role_binding,
}
use nfs_provisioner_operator.Resources.Common.{Method, ResourceManager}

abbrev pub get_resource_name : String
get_resource_name = "RBAC"

abbrev rule : List String → List String → List String → List String → PolicyRule
rule groups resources names verbs = record {
  api_groups = groups;
  resources = resources;
  resource_names = names;
  verbs = verbs;
}

-- The service account of the custom resource's namespace.
abbrev pub subject : NfsProvisioner → Subject
subject m = record {
  kind = "ServiceAccount";
  name = Defaults.service_account;
  namespace = m.metadata.namespace;
}

module _ (P : Platform) where
  open P use {is_not_found, get, create, set_controller_reference}

  unfoldable pub build_cluster_role : NfsProvisioner → ClusterRole
  build_cluster_role m = record {
    metadata = (set_controller_reference m (record zero_meta { name = Defaults.cluster_role })).1;
    rules =
        rule ("" ∷ []) ("persistentvolumes" ∷ []) []
          ("get" ∷ "list" ∷ "watch" ∷ "create" ∷ "delete" ∷ [])
        ∷ rule ("" ∷ []) ("persistentvolumeclaims" ∷ []) []
            ("get" ∷ "list" ∷ "watch" ∷ "update" ∷ [])
        ∷ rule ("storage.k8s.io" ∷ []) ("storageclasses" ∷ []) [] ("get" ∷ "list" ∷ "watch" ∷ [])
        ∷ rule ("" ∷ []) ("events" ∷ []) [] ("create" ∷ "update" ∷ "patch" ∷ [])
        ∷ rule ("policy" ∷ []) ("podsecuritypolicies" ∷ []) ("nfs-provisioner" ∷ []) ("use" ∷ [])
        ∷ [];
  }

  unfoldable pub build_cluster_role_binding : NfsProvisioner → ClusterRoleBinding
  build_cluster_role_binding m = record {
    metadata =
        (set_controller_reference m (record zero_meta { name = Defaults.cluster_role_binding })).1;
    subjects = subject m ∷ [];
    role_ref = record {
      api_group = "rbac.authorization.k8s.io";
      kind = "ClusterRole";
      name = Defaults.cluster_role;
    };
  }

  unfoldable pub build_role : NfsProvisioner → Role
  build_role m = record {
    metadata =
        (set_controller_reference m
          (record zero_meta { name = Defaults.role; namespace = m.metadata.namespace })).1;
    rules =
        rule ("" ∷ []) ("endpoints" ∷ []) []
          ("get" ∷ "list" ∷ "watch" ∷ "create" ∷ "update" ∷ "delete" ∷ [])
        ∷ rule ("" ∷ []) ("services" ∷ []) [] ("get" ∷ [])
        ∷ [];
  }

  unfoldable pub build_role_binding : NfsProvisioner → RoleBinding
  build_role_binding m = record {
    metadata =
        (set_controller_reference m
          (record zero_meta { name = Defaults.role_binding; namespace = m.metadata.namespace })).1;
    subjects = subject m ∷ [];
    role_ref = record {
      api_group = "rbac.authorization.k8s.io";
      kind = "Role";
      name = Defaults.role;
    };
  }

  unfoldable pub ensure_cluster_role : Method P
  ensure_cluster_role m = do
    reply ← ask (get cluster_role (named "" Defaults.cluster_role))
    elim reply [
      | found _ ↦ pure tt
      | failed e ↦
          if is_not_found e then call (create cluster_role (build_cluster_role m)) else fail e
    ]

  unfoldable pub ensure_cluster_role_binding : Method P
  ensure_cluster_role_binding m = do
    reply ← ask (get cluster_role_binding (named "" Defaults.cluster_role_binding))
    elim reply [
      | found _ ↦ pure tt
      | failed e ↦
          if is_not_found e
          then call (create cluster_role_binding (build_cluster_role_binding m))
          else fail e
    ]

  unfoldable pub ensure_role : Method P
  ensure_role m = do
    reply ← ask (get role (named m.metadata.namespace Defaults.role))
    elim reply [
      | found _ ↦ pure tt
      | failed e ↦ if is_not_found e then call (create role (build_role m)) else fail e
    ]

  unfoldable pub ensure_role_binding : Method P
  ensure_role_binding m = do
    reply ← ask (get role_binding (named m.metadata.namespace Defaults.role_binding))
    elim reply [
      | found _ ↦ pure tt
      | failed e ↦
          if is_not_found e then call (create role_binding (build_role_binding m)) else fail e
    ]

  unfoldable pub ensure_resource : Method P
  ensure_resource m = do
    ensure_cluster_role m
    ensure_cluster_role_binding m
    ensure_role m
    ensure_role_binding m

  abbrev pub new_rbac_manager : ResourceManager P
  new_rbac_manager = record {
    ensure_resource = ensure_resource;
    get_resource_name = get_resource_name;
  }
