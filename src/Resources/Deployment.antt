-- ===== src/Resources/Deployment.antt =====
-- controllers/resources/deployment.go
use nfs_provisioner_operator.Base.{
  ℕ, String, Option, none, some, List, [], ◌∷◌, if◌then◌else◌, is_set, ◌==◌,
}
use nfs_provisioner_operator.Base.Exec.{found, failed, ask, call, pure, fail, ◌>>=◌}
use nfs_provisioner_operator.Kube.Meta.{StringMap, zero_meta, named}
use nfs_provisioner_operator.Kube.Core.{
  Container, ContainerPort, EnvVar, VolumeSource, host_path, claim, host_path_directory,
}
use nfs_provisioner_operator.Kube.Apps.{Deployment}
use nfs_provisioner_operator.Api.{ImageConfiguration, NfsProvisioner}
use nfs_provisioner_operator.Defaults
use nfs_provisioner_operator.Cluster.{Platform, deployment}
use nfs_provisioner_operator.Resources.Common.{Method, ResourceManager}

abbrev pub get_resource_name : String
get_resource_name = "Deployment"

abbrev pub labels_for_nfs_provisioner : String → StringMap
labels_for_nfs_provisioner name =
    some (("app", "nfs-provisioner") ∷ ("nfsprovisioner_cr", name) ∷ [])

-- `storageType` in `EnsureResource`
abbrev pub storage_type : NfsProvisioner → String
storage_type m = if is_set m.spec.host_path_dir then "HOSTPATH" else "PVC"

unfoldable pub get_volume_spec : NfsProvisioner → String → VolumeSource
get_volume_spec m storage_type =
    if storage_type == "HOSTPATH"
    then host_path m.spec.host_path_dir (some host_path_directory)
    else claim (if is_set m.spec.pvc then m.spec.pvc else Defaults.pvc)

abbrev port : String → ℕ → String → ContainerPort
port name number protocol = record { name = name; container_port = number; protocol = protocol }

abbrev pub container_ports : List ContainerPort
container_ports =
    port "nfs" 2049 ""
    ∷ port "nfs-udp" 2049 "UDP"
    ∷ port "nlockmgr" 32803 ""
    ∷ port "nlockmgr-udp" 32803 "UDP"
    ∷ port "mountd" 20048 ""
    ∷ port "mountd-udp" 20048 "UDP"
    ∷ port "rquotad" 875 ""
    ∷ port "rquotad-udp" 875 "UDP"
    ∷ port "rpcbind" 111 ""
    ∷ port "rpcbind-udp" 111 "UDP"
    ∷ port "statd" 662 ""
    ∷ port "statd-udp" 662 "UDP"
    ∷ []

abbrev variable : String → String → Option String → EnvVar
variable name value field_path = record { name = name; value = value; field_path = field_path }

-- The settings that `buildDeployment` takes from the custom resource, each over its default.
abbrev or_else : Option String → String → String
or_else none default = default
or_else (some value) default = value

abbrev image_setting :
    Option ImageConfiguration → (ImageConfiguration → Option String) → String → String
image_setting none field default = default
image_setting (some configuration) field default = or_else (field configuration) default

unfoldable nfs_image : NfsProvisioner → String
nfs_image m = image_setting m.spec.nfs_image_configuration (λ c. c.image) Defaults.nfs_image

unfoldable nfs_image_pull_policy : NfsProvisioner → String
nfs_image_pull_policy m =
    image_setting m.spec.nfs_image_configuration (λ c. c.image_pull_policy)
      Defaults.nfs_image_pull_policy

abbrev given_node_selector : StringMap → StringMap
given_node_selector none = Defaults.node_selector
given_node_selector (some labels) = some labels

unfoldable node_selector : NfsProvisioner → String → StringMap
node_selector m storage_type =
    if storage_type == "PVC" then some [] else given_node_selector m.spec.node_selector

unfoldable pub nfs_container : NfsProvisioner → Container
unfolding nfs_image nfs_image_pull_policy
nfs_container m = record {
  name = "nfs-provisioner";
  image = nfs_image m;
  image_pull_policy = nfs_image_pull_policy m;
  ports = container_ports;
  add_capabilities = "DAC_READ_SEARCH" ∷ "SYS_RESOURCE" ∷ [];
  drop_capabilities = "KILL" ∷ "MKNOD" ∷ "SYS_CHROOT" ∷ [];
  args = "'-provisioner=example.com/nfs'" ∷ [];
  env =
      variable "POD_IP" "" (some "status.podIP")
      ∷ variable "SERVICE_NAME" "nfs-provisioner" none
      ∷ variable "POD_NAMESPACE" "" (some "metadata.namespace")
      ∷ [];
  volume_mounts = (record { name = "export-volume"; mount_path = "/export" }) ∷ [];
}

module _ (P : Platform) where
  open P use {is_not_found, get, create, set_controller_reference}

  unfoldable pub build_deployment : NfsProvisioner → String → Deployment
  unfolding get_volume_spec node_selector nfs_container
  build_deployment m storage_type =
      let ls = labels_for_nfs_provisioner m.metadata.name in
      record {
        metadata =
            (set_controller_reference m (record zero_meta {
              name = Defaults.deployment;
              namespace = m.metadata.namespace;
            })).1;
        match_labels = ls;
        template_labels = ls;
        pod = record {
          containers = nfs_container m ∷ [];
          node_selector = node_selector m storage_type;
          service_account_name = Defaults.service_account;
          volumes =
              (record { name = "export-volume"; source = get_volume_spec m storage_type }) ∷ [];
        };
      }

  unfoldable pub ensure_resource : Method P
  ensure_resource m = do
    reply ← ask (get deployment (named m.metadata.namespace Defaults.deployment))
    elim reply [
      | found _ ↦ pure tt
      | failed e ↦
          if is_not_found e
          then call (create deployment (build_deployment m (storage_type m)))
          else fail e
    ]

  abbrev pub new_deployment_manager : ResourceManager P
  new_deployment_manager = record {
    ensure_resource = ensure_resource;
    get_resource_name = get_resource_name;
  }
