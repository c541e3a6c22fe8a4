-- ===== src/DeepCopy/Views.antt =====
-- What the structs in a heap stand for: the values of `Api` and `Kube`, which hold no addresses.
-- A view is a relation, so a struct with a pointer to no cell stands for nothing.
use nfs_provisioner_operator.Base
use nfs_provisioner_operator.Base.{
  ℕ, String, ◌≡◌, Bool, false, ◌||◌, Option, none, some, List, [], ◌∷◌,
}
use nfs_provisioner_operator.Kube.Meta
use nfs_provisioner_operator.Api
use nfs_provisioner_operator.DeepCopy.Types.{Ptr, CellType, TypeMeta}
use nfs_provisioner_operator.DeepCopy.Types
use nfs_provisioner_operator.DeepCopy.CellTypes
use nfs_provisioner_operator.DeepCopy.Heap.{Heap, value_at}

-- A relation of values in a heap to what they stand for.
abbrev pub View : Type 0 → Type 0 → Type 1
View V W = Heap → V → W → Type 0

-- A pointer stands for what the value behind it does, and nil for `none`.
pub data Pointer {V W : Type 0} (type : CellType V) (P : View V W) (h : Heap)
    : Ptr → Option W → Type 0 where
  nil : Pointer type P h none none
  to :
      {a : ℕ} {v : V} {w : W}
      → value_at type h a ≡ some v
      → P h v w
      → Pointer type P h (some a) (some w)

-- A slice whose being nil is left out.
pub data Slice {V : Type 0} (type : CellType (List V)) (h : Heap) : Ptr → List V → Type 0 where
  nil : Slice type h none []
  elements : {a : ℕ} {xs : List V} → value_at type h a ≡ some xs → Slice type h (some a) xs

-- A value with no pointer in it.
abbrev pub Plain : {V : Type 0} → View V V
Plain h v w = v ≡ w

abbrev pub has_key : String → List (String × String) → Bool
has_key key [] = false
has_key key ((k, _) ∷ m) = (Base.◌==◌ k key) || has_key key m

abbrev pub Distinct : List (String × String) → Type 0
Distinct [] = Unit
Distinct ((k, _) ∷ m) = (has_key k m ≡ false) × Distinct m

-- The entries of a map have different keys.
abbrev pub Entries : View (List (String × String)) (List (String × String))
Entries h m n = (m ≡ n) × Distinct m

pub record Image (h : Heap) (x : Types.ImageConfiguration) (v : Api.ImageConfiguration)
    : Type 0 where
  pub image : Pointer CellTypes.strings Plain h x.image v.image
  pub image_pull_policy : Pointer CellTypes.strings Plain h x.image_pull_policy v.image_pull_policy

pub record Spec (h : Heap) (x : Types.NfsProvisionerSpec) (v : Api.NfsProvisionerSpec)
    : Type 0 where
  pub host_path_dir : x.host_path_dir ≡ v.host_path_dir
  pub pvc : x.pvc ≡ v.pvc
  pub storage_size : x.storage_size ≡ v.storage_size
  pub sc_for_nfs_pvc : x.sc_for_nfs_pvc ≡ v.sc_for_nfs_pvc
  pub node_selector : Pointer CellTypes.string_maps Entries h x.node_selector v.node_selector
  pub sc_for_nfs_provisioner : x.sc_for_nfs_provisioner ≡ v.sc_for_nfs_provisioner
  pub nfs_image_configuration :
      Pointer CellTypes.image_configurations Image h x.nfs_image_configuration
        v.nfs_image_configuration

pub record Status (h : Heap) (x : Types.NfsProvisionerStatus) (v : Api.NfsProvisionerStatus)
    : Type 0 where
  pub nodes : Pointer CellTypes.string_slices Plain h x.nodes v.nodes
  pub error : x.error ≡ v.error

pub record Metadata (h : Heap) (x : Types.ObjectMeta) (v : Meta.ObjectMeta) : Type 0 where
  pub name : x.name ≡ v.name
  pub generate_name : x.generate_name ≡ v.generate_name
  pub namespace : x.namespace ≡ v.namespace
  pub uid : x.uid ≡ v.uid
  pub resource_version : x.resource_version ≡ v.resource_version
  pub deletion_timestamp :
      Pointer CellTypes.numbers Plain h x.deletion_timestamp v.deletion_timestamp
  pub labels : Pointer CellTypes.string_maps Entries h x.labels v.labels
  pub annotations : Pointer CellTypes.string_maps Entries h x.annotations v.annotations
  pub owner_references : Slice CellTypes.owner_slices h x.owner_references v.owner_references
  pub finalizers : Slice CellTypes.string_slices h x.finalizers v.finalizers

-- A resource stands for its type meta with the resource that the rest of this model speaks of.
pub record Resource (h : Heap) (x : Types.NfsProvisioner) (v : TypeMeta × Api.NfsProvisioner)
    : Type 0 where
  pub type_meta : x.type_meta ≡ v.0
  pub metadata : Metadata h x.metadata v.1.metadata
  pub spec : Spec h x.spec v.1.spec
  pub status : Status h x.status v.1.status

abbrev pub Resources : View (List Types.NfsProvisioner) (List (TypeMeta × Api.NfsProvisioner))
Resources h [] [] = Unit
Resources h [] (v ∷ vs) = ⊥
Resources h (x ∷ xs) [] = ⊥
Resources h (x ∷ xs) (v ∷ vs) = Resource h x v × Resources h xs vs

-- What a list stands for.
pub record ResourceList : Type 0 where
  pub type_meta : TypeMeta
  pub resource_version : String
  pub continue_token : String
  pub remaining_item_count : Option ℕ
  pub items : Option (List (TypeMeta × Api.NfsProvisioner))

pub record ListMetadata (h : Heap) (x : Types.ListMeta) (v : ResourceList) : Type 0 where
  pub resource_version : x.resource_version ≡ v.resource_version
  pub continue_token : x.continue_token ≡ v.continue_token
  pub remaining_item_count :
      Pointer CellTypes.numbers Plain h x.remaining_item_count v.remaining_item_count

pub record Listing (h : Heap) (x : Types.NfsProvisionerList) (v : ResourceList) : Type 0 where
  pub type_meta : x.type_meta ≡ v.type_meta
  pub metadata : ListMetadata h x.metadata v
  pub items : Pointer CellTypes.resource_slices Resources h x.items v.items
