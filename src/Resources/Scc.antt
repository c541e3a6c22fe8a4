-- ===== src/Resources/Scc.antt =====
-- controllers/resources/scc.go
pub mod Users
pub mod Rule
pub mod Promise
pub mod Mistakes
pub mod Counts
use nfs_provisioner_operator.Base.{
  String, ◌<>◌, Bool, true, false, none, List, [], ◌∷◌, ◌++◌, ◌||◌, not, if◌then◌else◌,
}
use nfs_provisioner_operator.Base.Texts.{contains}
use nfs_provisioner_operator.Base.Exec.{Exec, Reply, found, failed, ask, call, pure, fail, ◌>>=◌}
use nfs_provisioner_operator.Kube.Meta.{NamespacedName, zero_meta, named}
use nfs_provisioner_operator.Kube.Storage.{CustomResourceDefinition}
use nfs_provisioner_operator.Kube.Security.{
  SecurityContextConstraints, run_as_any, must_run_as, fs_type_config_map, fs_type_downward_api,
  fs_type_empty_dir, fs_type_persistent_volume_claim, fs_type_host_path, fs_type_secret,
}
use nfs_provisioner_operator.Api.{NfsProvisioner}
use nfs_provisioner_operator.Defaults
use nfs_provisioner_operator.Cluster.{
  Platform, custom_resource_definition, security_context_constraints,
}
use nfs_provisioner_operator.Resources.Common.{Method, ResourceManager}

abbrev pub get_resource_name : String
get_resource_name = "SecurityContextConstraints"

abbrev pub crd_key : NamespacedName
crd_key = named "" "securitycontextconstraints.security.openshift.io"

abbrev pub scc_key : NamespacedName
scc_key = named "" Defaults.security_context_constraints

-- What the loop over the users looks for, and the user that is added.
abbrev pub user_part : String → String
user_part namespace = namespace <> (":" <> Defaults.service_account)

abbrev pub user_to_add : String → String
user_to_add namespace = "system:serviceaccount:" <> (namespace <> (":" <> Defaults.service_account))

-- The loop over `sccFound.Users`.
pub user_exists : String → List String → Bool
user_exists namespace [] = false
user_exists namespace (user ∷ users) =
    contains user (user_part namespace) || user_exists namespace users

module _ (P : Platform) where
  open P use {State, Error, is_not_found, get, create, update, set_controller_reference}

  -- `err == nil`
  abbrev pub is_nil : Reply Error CustomResourceDefinition → Exec State Error Bool
  is_nil (found _) = pure true
  is_nil (failed _) = pure false

  unfoldable pub is_scc_crd_available : Exec State Error Bool
  is_scc_crd_available = do reply ← ask (get custom_resource_definition crd_key); is_nil reply

  unfoldable pub build_scc : NfsProvisioner → SecurityContextConstraints
  build_scc m = record {
    metadata =
        (set_controller_reference m
          (record zero_meta { name = Defaults.security_context_constraints })).1;
    allow_host_dir_volume_plugin = true;
    allow_host_ipc = false;
    allow_host_network = false;
    allow_host_pid = false;
    allow_host_ports = false;
    allow_privileged_container = false;
    allowed_capabilities = "DAC_READ_SEARCH" ∷ "SYS_RESOURCE" ∷ [];
    default_add_capabilities = [];
    priority = none;
    read_only_root_filesystem = false;
    required_drop_capabilities = "KILL" ∷ "MKNOD" ∷ "SYS_CHROOT" ∷ [];
    run_as_user = run_as_any;
    se_linux_context = must_run_as;
    users = user_to_add m.metadata.namespace ∷ [];
    supplemental_groups = run_as_any;
    volumes =
        fs_type_config_map ∷ fs_type_downward_api ∷ fs_type_empty_dir
        ∷ fs_type_persistent_volume_claim ∷ fs_type_host_path ∷ fs_type_secret ∷ [];
    fs_group = must_run_as;
  }

  -- The second half of `EnsureResource`, for the constraints that were found.
  unfoldable pub add_user :
      NfsProvisioner → SecurityContextConstraints → Exec State Error (Unit {0})
  unfolding user_exists
  add_user m scc =
      if not (user_exists m.metadata.namespace scc.users)
      then call (
          update security_context_constraints
            (record scc { users = scc.users ++ user_to_add m.metadata.namespace ∷ [] }))
      else pure tt

  -- What follows the read of the constraints.
  abbrev pub on_reply :
      NfsProvisioner → Reply Error SecurityContextConstraints → Exec State Error (Unit {0})
  on_reply m (failed e) =
      if is_not_found e then call (create security_context_constraints (build_scc m)) else fail e
  on_reply m (found scc) = add_user m scc

  abbrev pub ensure_if : NfsProvisioner → Bool → Exec State Error (Unit {0})
  ensure_if m available =
      if not available
      then pure tt
      else do reply ← ask (get security_context_constraints scc_key); on_reply m reply

  unfoldable pub ensure_resource : Method P
  unfolding is_scc_crd_available add_user
  ensure_resource m = do available ← is_scc_crd_available; ensure_if m available

  abbrev pub new_scc_manager : ResourceManager P
  new_scc_manager = record {
    ensure_resource = ensure_resource;
    get_resource_name = get_resource_name;
  }
