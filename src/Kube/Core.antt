-- ===== src/Kube/Core.antt =====
-- Service accounts, services, claims and the parts of a pod (`corev1`).
use nfs_provisioner_operator.Base.{ℕ, String, Option, List}
use nfs_provisioner_operator.Kube.Meta.{StringMap, ObjectMeta}

pub record ServiceAccount : Type 0 where
  pub metadata : ObjectMeta

pub record ServicePort : Type 0 where
  pub name : String
  pub port : ℕ
  pub protocol : String

pub record Service : Type 0 where
  pub metadata : ObjectMeta
  pub ports : List ServicePort
  pub selector : StringMap

-- A `resource.Quantity`, in the smallest unit that the library keeps.
abbrev pub Quantity : Type 0
Quantity = ℕ

pub record PersistentVolumeClaim : Type 0 where
  pub metadata : ObjectMeta
  pub access_modes : List String
  pub storage_request : Quantity
  pub storage_class_name : Option String

pub record ContainerPort : Type 0 where
  pub name : String
  pub container_port : ℕ
  pub protocol : String

-- An environment variable: its name, its value, and the path of its `fieldRef` if it has one.
pub record EnvVar : Type 0 where
  pub name : String
  pub value : String
  pub field_path : Option String

pub record VolumeMount : Type 0 where
  pub name : String
  pub mount_path : String

pub data VolumeSource : Type 0 where
  host_path : String → Option String → VolumeSource
  claim : String → VolumeSource

pub record Volume : Type 0 where
  pub name : String
  pub source : VolumeSource

pub record Container : Type 0 where
  pub name : String
  pub image : String
  pub image_pull_policy : String
  pub ports : List ContainerPort
  pub add_capabilities : List String
  pub drop_capabilities : List String
  pub args : List String
  pub env : List EnvVar
  pub volume_mounts : List VolumeMount

pub record PodSpec : Type 0 where
  pub containers : List Container
  pub node_selector : StringMap
  pub service_account_name : String
  pub volumes : List Volume

abbrev pub pull_always : String
pull_always = "Always"

abbrev pub read_write_once : String
read_write_once = "ReadWriteOnce"

abbrev pub host_path_directory : String
host_path_directory = "Directory"
