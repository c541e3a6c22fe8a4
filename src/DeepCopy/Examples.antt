-- ===== src/DeepCopy/Examples.antt =====
-- Deep copies of a resource and of a list of resources, and of the parts of a resource, in a heap.
mod Meta
use nfs_provisioner_operator.Base.{
  ℕ, zero, suc, ◌≤◌, ◌≡◌, refl, Option, none, some, List, [], ◌∷◌, arith,
}
use nfs_provisioner_operator.Base.Lists.{length}
use nfs_provisioner_operator.Api
use nfs_provisioner_operator.DeepCopy.Types
use nfs_provisioner_operator.DeepCopy.Types.{
  Cell, text, texts, entries, image_configuration, provisioner_spec, provisioner_status,
  provisioner, provisioners, provisioner_list, TypeMeta,
}
use nfs_provisioner_operator.DeepCopy.CellTypes
use nfs_provisioner_operator.DeepCopy.Heap.{Heap}
use nfs_provisioner_operator.DeepCopy.Image
use nfs_provisioner_operator.DeepCopy.Spec
use nfs_provisioner_operator.DeepCopy.Status
use nfs_provisioner_operator.DeepCopy.Provisioner.{
  deep_copy, deep_copy_list, deep_copy_object, deep_copy_list_object, nfs_provisioner,
  nfs_provisioner_list,
}
use nfs_provisioner_operator.DeepCopy.Views
use nfs_provisioner_operator.DeepCopy.Views.{Pointer, nil, to, elements, ResourceList}
use nfs_provisioner_operator.DeepCopy.Fresh.{Ready}
use nfs_provisioner_operator.DeepCopy.Separation.{Copied}
use nfs_provisioner_operator.DeepCopy.Laws.{
  deep_copies-Copied, deep_copy-Copied, deep_copy_list-Copied, deep_copy_object-Copied,
  ObjectCopied,
}
use nfs_provisioner_operator.DeepCopy.Examples.Meta.{
  copy_meta, copy_list_meta, copy_meta-IsCopy, copy_list_meta-IsCopy,
}
use nfs_provisioner_operator.Kube.Meta.{zero_meta}

abbrev image : Types.ImageConfiguration
image = record { image = some 0; image_pull_policy = none }

abbrev spec : Types.NfsProvisionerSpec
spec = record Spec.zero_value {
  host_path_dir = "/srv";
  node_selector = some 1;
  nfs_image_configuration = some 2;
}

abbrev status : Types.NfsProvisionerStatus
status = record { nodes = some 3; error = "" }

abbrev type_meta : TypeMeta
type_meta = record { kind = "NFSProvisioner"; api_version = "cache.jhouse.com/v1alpha1" }

abbrev resource : Types.NfsProvisioner
resource = record {
  type_meta = type_meta;
  metadata = record {
    name = "nfs";
    generate_name = "";
    namespace = "storage";
    uid = "1";
    resource_version = "7";
    deletion_timestamp = none;
    labels = some 1;
    annotations = none;
    owner_references = none;
    finalizers = some 3;
  };
  spec = spec;
  status = status;
}

abbrev resources : Types.NfsProvisionerList
resources = record {
  type_meta = type_meta;
  metadata = record { resource_version = "8"; continue_token = ""; remaining_item_count = none };
  items = some 7;
}

-- The cells of a list that holds a resource. A selector and a label map, and two slices, are shared.
abbrev cell_list : List Cell
cell_list =
    text "nfs:v4"
    ∷ entries (("node", "a") ∷ ("disk", "ssd") ∷ [])
    ∷ image_configuration image
    ∷ texts ("nfs-0" ∷ [])
    ∷ provisioner_spec spec
    ∷ provisioner_status status
    ∷ provisioner resource
    ∷ provisioners (resource ∷ resource ∷ [])
    ∷ provisioner_list resources
    ∷ []

abbrev cell_of : List Cell → ℕ → Option Cell
cell_of [] a = none
cell_of (c ∷ cs) zero = some c
cell_of (c ∷ cs) (suc a) = cell_of cs a

abbrev heap : Heap
heap = record { top = 9; cell = cell_of cell_list }

cell_of-free : (cs : List Cell) (a : ℕ) → length cs ≤ a → cell_of cs a ≡ none
cell_of-free [] a le = refl
cell_of-free (c ∷ cs) zero le = absurd (omega arith)
cell_of-free (c ∷ cs) (suc a) le = cell_of-free cs a (omega arith)

heap-Ready : Ready 0 heap
heap-Ready = record { below = omega arith; free = cell_of-free cell_list }

abbrev image_value : Api.ImageConfiguration
image_value = record { image = some "nfs:v4"; image_pull_policy = none }

abbrev spec_value : Api.NfsProvisionerSpec
spec_value = record {
  host_path_dir = "/srv";
  pvc = "";
  storage_size = "";
  sc_for_nfs_pvc = "";
  node_selector = some (("node", "a") ∷ ("disk", "ssd") ∷ []);
  sc_for_nfs_provisioner = "";
  nfs_image_configuration = some image_value;
}

abbrev status_value : Api.NfsProvisionerStatus
status_value = record { nodes = some ("nfs-0" ∷ []); error = "" }

abbrev resource_value : TypeMeta × Api.NfsProvisioner
resource_value = (
  type_meta,
  record {
    metadata = record zero_meta {
      name = "nfs";
      namespace = "storage";
      uid = "1";
      resource_version = "7";
      labels = some (("node", "a") ∷ ("disk", "ssd") ∷ []);
      finalizers = "nfs-0" ∷ [];
    };
    spec = spec_value;
    status = status_value;
  },
)

abbrev list_value : ResourceList
list_value = record {
  type_meta = type_meta;
  resource_version = "8";
  continue_token = "";
  remaining_item_count = none;
  items = some (resource_value ∷ resource_value ∷ []);
}

image-Image : Views.Image heap image image_value
image-Image = record { image = to refl refl; image_pull_policy = nil }

spec-Spec : Views.Spec heap spec spec_value
spec-Spec = record {
  host_path_dir = refl;
  pvc = refl;
  storage_size = refl;
  sc_for_nfs_pvc = refl;
  node_selector = to refl (refl, (refl, (refl, tt)));
  sc_for_nfs_provisioner = refl;
  nfs_image_configuration = to refl image-Image;
}

status-Status : Views.Status heap status status_value
status-Status = record { nodes = to refl refl; error = refl }

resource-Resource : Views.Resource heap resource resource_value
resource-Resource = record {
  type_meta = refl;
  metadata = record {
    name = refl;
    generate_name = refl;
    namespace = refl;
    uid = refl;
    resource_version = refl;
    deletion_timestamp = nil;
    labels = to refl (refl, (refl, (refl, tt)));
    annotations = nil;
    owner_references = nil;
    finalizers = elements refl;
  };
  spec = spec-Spec;
  status = status-Status;
}

resources-Listing : Views.Listing heap resources list_value
resources-Listing = record {
  type_meta = refl;
  metadata = record { resource_version = refl; continue_token = refl; remaining_item_count = nil };
  items = to refl (resource-Resource, (resource-Resource, tt));
}

deep_copy-Copied_example :
    Copied CellTypes.resources Views.Resource heap
      (some 6)
      (some resource_value)
      (λ a. none)
      (deep_copy copy_meta (some 6) heap)
deep_copy-Copied_example =
    deep_copy-Copied copy_meta copy_meta-IsCopy heap (some 6) (some resource_value) (λ a. none)
      heap-Ready (to refl resource-Resource)

deep_copy_list-Copied_example :
    Copied CellTypes.resource_lists Views.Listing heap
      (some 8)
      (some list_value)
      (λ a. none)
      (deep_copy_list copy_meta copy_list_meta (some 8) heap)
deep_copy_list-Copied_example =
    deep_copy_list-Copied copy_meta copy_meta-IsCopy copy_list_meta copy_list_meta-IsCopy heap
      (some 8) (some list_value) (λ a. none) heap-Ready (to refl resources-Listing)

deep_copies-Copied_example :
    Copied CellTypes.image_configurations Views.Image heap
      (some 2)
      (some image_value)
      (λ a. none)
      (Image.deep_copy (some 2) heap)
    × Copied CellTypes.specs Views.Spec heap
        (some 4)
        (some spec_value)
        (λ a. none)
        (Spec.deep_copy (some 4) heap)
    × Copied CellTypes.statuses Views.Status heap
        (some 5)
        (some status_value)
        (λ a. none)
        (Status.deep_copy (some 5) heap)
deep_copies-Copied_example =
    deep_copies-Copied heap (λ a. none) (some 2) (some 4) (some 5) (some image_value)
      (some spec_value) (some status_value) heap-Ready (to refl image-Image) (to refl spec-Spec)
      (to refl status-Status)

deep_copy_object-Copied_example :
    ObjectCopied CellTypes.resources Views.Resource nfs_provisioner heap none none
      (λ a. none)
      (deep_copy_object copy_meta none heap)
    × ObjectCopied CellTypes.resource_lists Views.Listing nfs_provisioner_list heap
        (some 8)
        (some list_value)
        (λ a. none)
        (deep_copy_list_object copy_meta copy_list_meta (some 8) heap)
deep_copy_object-Copied_example =
    deep_copy_object-Copied copy_meta copy_meta-IsCopy copy_list_meta copy_list_meta-IsCopy heap
      none (some 8) none (some list_value) (λ a. none) heap-Ready nil (to refl resources-Listing)
