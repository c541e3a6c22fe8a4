-- ===== src/DeepCopy/Fresh/Stable.antt =====
-- The views depend only on cells that are there.
use nfs_provisioner_operator.Base.{
  ◌≡◌, [], ◌∷◌, some, arith, inl, inr, Option-cases, ℕ, List, String, Option,
}
use nfs_provisioner_operator.DeepCopy.Types.{Ptr, CellType}
use nfs_provisioner_operator.Kube.Meta.{StringMap}
use nfs_provisioner_operator.DeepCopy.Heap.{Heap, value_at}
use nfs_provisioner_operator.DeepCopy.Views
use nfs_provisioner_operator.DeepCopy.CellTypes
use nfs_provisioner_operator.DeepCopy.Views.{
  View, Pointer, Slice, nil, to, elements, Plain, Entries,
}
use nfs_provisioner_operator.DeepCopy.Fresh.{Extends, IsStable}

pub value_at-kept :
    {V : Type 0} (type : CellType V) (h g : Heap)
    → Extends h g
    → (a : ℕ) (v : V) → value_at type h a ≡ some v
    → value_at type g a ≡ some v
value_at-kept type h g e a v at = elim (Option-cases (h.cell a)) [
  | inl gone ↦ ground arith
  | inr (c, here) ↦ ground (arith, e a c here)
]

pub Pointer-IsStable :
    {V W : Type 0} (type : CellType V) (P : View V W) → IsStable P → IsStable (Pointer type P)
Pointer-IsStable type P stable h g e p w nil = nil
Pointer-IsStable type P stable h g e p w (to {a} {v} {w = u} at is) =
    to (value_at-kept type h g e a v at) (stable h g e v u is)

Slice-IsStable : {V : Type 0} (type : CellType (List V)) → IsStable (Slice type)
Slice-IsStable type h g e p w nil = nil
Slice-IsStable type h g e p w (elements {a} {xs} at) = elements (value_at-kept type h g e a xs at)

pub Plain-IsStable : {V : Type 0} → IsStable (Plain {V = V})
Plain-IsStable h g e x v is = is

pub Entries-IsStable : IsStable Entries
Entries-IsStable h g e x v is = is

pub Image-IsStable : IsStable Views.Image
Image-IsStable h g e x v is = record {
  image = plain x.image v.image is.image;
  image_pull_policy = plain x.image_pull_policy v.image_pull_policy is.image_pull_policy;
}
  where
    plain :
        (p : Ptr) (w : Option String)
        → Pointer CellTypes.strings Plain h p w
        → Pointer CellTypes.strings Plain g p w
    plain = Pointer-IsStable CellTypes.strings Plain Plain-IsStable h g e

pub Spec-IsStable : IsStable Views.Spec
Spec-IsStable h g e x v is = record {
  host_path_dir = is.host_path_dir;
  pvc = is.pvc;
  storage_size = is.storage_size;
  sc_for_nfs_pvc = is.sc_for_nfs_pvc;
  sc_for_nfs_provisioner = is.sc_for_nfs_provisioner;
  node_selector =
      Pointer-IsStable CellTypes.string_maps Entries Entries-IsStable h g e x.node_selector
        v.node_selector is.node_selector;
  nfs_image_configuration =
      Pointer-IsStable CellTypes.image_configurations Views.Image Image-IsStable h g e
        x.nfs_image_configuration v.nfs_image_configuration is.nfs_image_configuration;
}

pub Status-IsStable : IsStable Views.Status
Status-IsStable h g e x v is = record {
  error = is.error;
  nodes =
      Pointer-IsStable CellTypes.string_slices Plain Plain-IsStable h g e x.nodes v.nodes is.nodes;
}

pub Metadata-IsStable : IsStable Views.Metadata
Metadata-IsStable h g e x v is = record {
  name = is.name;
  generate_name = is.generate_name;
  namespace = is.namespace;
  uid = is.uid;
  resource_version = is.resource_version;
  deletion_timestamp =
      Pointer-IsStable CellTypes.numbers Plain Plain-IsStable h g e x.deletion_timestamp
        v.deletion_timestamp is.deletion_timestamp;
  labels = entries x.labels v.labels is.labels;
  annotations = entries x.annotations v.annotations is.annotations;
  owner_references =
      Slice-IsStable CellTypes.owner_slices h g e x.owner_references v.owner_references
        is.owner_references;
  finalizers = Slice-IsStable CellTypes.string_slices h g e x.finalizers v.finalizers is.finalizers;
}
  where
    entries :
        (p : Ptr) (w : StringMap)
        → Pointer CellTypes.string_maps Entries h p w
        → Pointer CellTypes.string_maps Entries g p w
    entries = Pointer-IsStable CellTypes.string_maps Entries Entries-IsStable h g e

pub Resource-IsStable : IsStable Views.Resource
Resource-IsStable h g e x v is = record {
  type_meta = is.type_meta;
  metadata = Metadata-IsStable h g e x.metadata (v.1).metadata is.metadata;
  spec = Spec-IsStable h g e x.spec (v.1).spec is.spec;
  status = Status-IsStable h g e x.status (v.1).status is.status;
}

pub Resources-IsStable : IsStable Views.Resources
Resources-IsStable h g e [] [] is = is
Resources-IsStable h g e [] (v ∷ vs) is = is
Resources-IsStable h g e (x ∷ xs) [] is = is
Resources-IsStable h g e (x ∷ xs) (v ∷ vs) (first, later) =
    (Resource-IsStable h g e x v first, Resources-IsStable h g e xs vs later)

pub ListMetadata-IsStable : IsStable Views.ListMetadata
ListMetadata-IsStable h g e x v is = record {
  resource_version = is.resource_version;
  continue_token = is.continue_token;
  remaining_item_count =
      Pointer-IsStable CellTypes.numbers Plain Plain-IsStable h g e x.remaining_item_count
        v.remaining_item_count is.remaining_item_count;
}

pub Listing-IsStable : IsStable Views.Listing
Listing-IsStable h g e x v is = record {
  type_meta = is.type_meta;
  metadata = ListMetadata-IsStable h g e x.metadata v is.metadata;
  items =
      Pointer-IsStable CellTypes.resource_slices Views.Resources Resources-IsStable h g e x.items
        v.items is.items;
}
