-- ===== src/DeepCopy/Types.antt =====
-- The types of api/v1alpha1/nfsprovisioner_types.go as they lie in memory: a pointer, a map and a
-- slice are the address of a cell, or nil.
use nfs_provisioner_operator.Base.{ℕ, String, Option, some, List, ◌≡◌}
use nfs_provisioner_operator.Kube.Meta.{OwnerReference}

abbrev pub Ptr : Type 0
Ptr = Option ℕ

-- `metav1.TypeMeta`
pub record TypeMeta : Type 0 where
  pub kind : String
  pub api_version : String

-- `metav1.ObjectMeta`
pub record ObjectMeta : Type 0 where
  pub name : String
  pub generate_name : String
  pub namespace : String
  pub uid : String
  pub resource_version : String
  pub deletion_timestamp : Ptr
  pub labels : Ptr
  pub annotations : Ptr
  pub owner_references : Ptr
  pub finalizers : Ptr

-- `metav1.ListMeta`
pub record ListMeta : Type 0 where
  pub resource_version : String
  pub continue_token : String
  pub remaining_item_count : Ptr

pub record ImageConfiguration : Type 0 where
  pub image : Ptr
  pub image_pull_policy : Ptr

pub record NfsProvisionerSpec : Type 0 where
  pub host_path_dir : String
  pub pvc : String
  pub storage_size : String
  pub sc_for_nfs_pvc : String
  pub node_selector : Ptr
  pub sc_for_nfs_provisioner : String
  pub nfs_image_configuration : Ptr

pub record NfsProvisionerStatus : Type 0 where
  pub nodes : Ptr
  pub error : String

pub record NfsProvisioner : Type 0 where
  pub type_meta : TypeMeta
  pub metadata : ObjectMeta
  pub spec : NfsProvisionerSpec
  pub status : NfsProvisionerStatus

pub record NfsProvisionerList : Type 0 where
  pub type_meta : TypeMeta
  pub metadata : ListMeta
  pub items : Ptr

-- What an address holds. The entries of a map are listed in the order in which `range` goes
-- through them; a slice is its elements, without spare capacity.
pub data Cell : Type 0 where
  number : ℕ → Cell
  text : String → Cell
  texts : List String → Cell
  entries : List (String × String) → Cell
  owners : List OwnerReference → Cell
  image_configuration : ImageConfiguration → Cell
  provisioner_spec : NfsProvisionerSpec → Cell
  provisioner_status : NfsProvisionerStatus → Cell
  provisioner : NfsProvisioner → Cell
  provisioners : List NfsProvisioner → Cell
  provisioner_list : NfsProvisionerList → Cell

-- A type of values that a cell can hold.
pub record CellType (V : Type 0) : Type 0 where
  pub wrap : V → Cell
  pub unwrap : Cell → Option V
  pub unwrap-wrap : (v : V) → unwrap (wrap v) ≡ some v
