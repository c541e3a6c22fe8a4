-- ===== src/Kube/Security.antt =====
-- OpenShift's security context constraints (`securityv1`).
use nfs_provisioner_operator.Base.{ℕ, String, Bool, Option, List}
use nfs_provisioner_operator.Kube.Meta.{ObjectMeta}

pub record SecurityContextConstraints : Type 0 where
  pub metadata : ObjectMeta
  pub allow_host_dir_volume_plugin : Bool
  pub allow_host_ipc : Bool
  pub allow_host_network : Bool
  pub allow_host_pid : Bool
  pub allow_host_ports : Bool
  pub allow_privileged_container : Bool
  pub allowed_capabilities : List String
  pub default_add_capabilities : List String
  pub priority : Option ℕ
  pub read_only_root_filesystem : Bool
  pub required_drop_capabilities : List String
  pub run_as_user : String
  pub se_linux_context : String
  pub users : List String
  pub supplemental_groups : String
  pub volumes : List String
  pub fs_group : String

-- The strategies and volume types that the code names.
abbrev pub run_as_any : String
run_as_any = "RunAsAny"

abbrev pub must_run_as : String
must_run_as = "MustRunAs"

abbrev pub fs_type_config_map : String
fs_type_config_map = "configMap"

abbrev pub fs_type_downward_api : String
fs_type_downward_api = "downwardAPI"

abbrev pub fs_type_empty_dir : String
fs_type_empty_dir = "emptyDir"

abbrev pub fs_type_persistent_volume_claim : String
fs_type_persistent_volume_claim = "persistentVolumeClaim"

abbrev pub fs_type_host_path : String
fs_type_host_path = "hostPath"

abbrev pub fs_type_secret : String
fs_type_secret = "secret"
