-- ===== src/DeepCopy/Laws.antt =====
-- What the functions of zz_generated.deepcopy.go do.
use nfs_provisioner_operator.Base.{ℕ, ◌≡◌, refl, Option, none, some}
use nfs_provisioner_operator.Api
use nfs_provisioner_operator.DeepCopy.Types.{CellType, Ptr, Cell, TypeMeta, ObjectMeta, ListMeta}
use nfs_provisioner_operator.DeepCopy.CellTypes
use nfs_provisioner_operator.DeepCopy.Heap.{Heap, Cmd, pure, ◌>>=◌}
use nfs_provisioner_operator.DeepCopy.Image
use nfs_provisioner_operator.DeepCopy.Spec
use nfs_provisioner_operator.DeepCopy.Status
use nfs_provisioner_operator.DeepCopy.Provisioner
use nfs_provisioner_operator.DeepCopy.Provisioner.{
  RuntimeObject, nil, nfs_provisioner, nfs_provisioner_list, deep_copy, deep_copy_object,
  deep_copy_list, deep_copy_list_object,
}
use nfs_provisioner_operator.DeepCopy.Provisioner.Copies.{deep_copy-IsCopy, deep_copy_list-IsCopy}
use nfs_provisioner_operator.DeepCopy.Views
use nfs_provisioner_operator.DeepCopy.Views.{View, Pointer, ResourceList}
use nfs_provisioner_operator.DeepCopy.Fresh.{IsCopy, Ready}
use nfs_provisioner_operator.DeepCopy.Fresh.Stable.{
  Image-IsStable, Spec-IsStable, Status-IsStable, Resource-IsStable, Listing-IsStable,
}
use nfs_provisioner_operator.DeepCopy.Separation.{Copied, IsCopy-Copied}

-- The `DeepCopy` of an image configuration, of a spec and of a status, each of a pointer that
-- stands for such a value or is nil, ends with a pointer that stands for the same, and leaves every
-- cell as it was; copy and original have no cell in common, as for a resource.
pub deep_copies-Copied :
    (h : Heap) (others : ℕ → Option Cell) (image spec status : Ptr)
    (v : Option Api.ImageConfiguration) (s : Option Api.NfsProvisionerSpec)
    (t : Option Api.NfsProvisionerStatus)
    → Ready 0 h
    → Pointer CellTypes.image_configurations Views.Image h image v
    → Pointer CellTypes.specs Views.Spec h spec s
    → Pointer CellTypes.statuses Views.Status h status t
    → Copied CellTypes.image_configurations Views.Image h image v others (Image.deep_copy image h)
      × Copied CellTypes.specs Views.Spec h spec s others (Spec.deep_copy spec h)
      × Copied CellTypes.statuses Views.Status h status t others (Status.deep_copy status h)
deep_copies-Copied h others image spec status v s t ready is_v is_s is_t = (
  IsCopy-Copied CellTypes.image_configurations Views.Image Image-IsStable Image.deep_copy
      Image.Laws.deep_copy-IsCopy h image v others ready is_v,
  IsCopy-Copied CellTypes.specs Views.Spec Spec-IsStable Spec.deep_copy Spec.Laws.deep_copy-IsCopy h
      spec s others ready is_s,
  IsCopy-Copied CellTypes.statuses Views.Status Status-IsStable Status.deep_copy
      Status.Laws.deep_copy-IsCopy h status t others ready is_t,
)

-- The run ends with an object that is the pointer of a copy, with the type of the method, and nil
-- where that pointer is.
abbrev pub IsObject : (Ptr → RuntimeObject) → Ptr → RuntimeObject → Type 0
IsObject typed none o = o ≡ nil
IsObject typed (some a) o = o ≡ typed (some a)

pub record ObjectCopied {V W : Type 0} (type : CellType V) (P : View V W)
    (typed : Ptr → RuntimeObject) (h : Heap) (p : Ptr) (w : Option W) (others : ℕ → Option Cell)
    (run : Option (RuntimeObject × Heap)) : Type 0 where
  pub object : RuntimeObject
  pub copy : Ptr
  pub heap : Heap
  pub runs : run ≡ some (object, heap)
  pub is : IsObject typed copy object
  pub copied : Copied type P h p w others (some (copy, heap))

object_of-IsObject :
    (typed : Ptr → RuntimeObject) (p : Ptr) → IsObject typed p (Provisioner.object_of typed p)
object_of-IsObject typed none = refl
object_of-IsObject typed (some a) = refl

ObjectCopied-of :
    {V W : Type 0} (type : CellType V) (P : View V W) (typed : Ptr → RuntimeObject) (h : Heap)
    (p : Ptr) (w : Option W) (others : ℕ → Option Cell) (copying : Cmd Ptr)
    → Copied type P h p w others (copying h)
    → ObjectCopied type P typed h p w others
        ((copying >>= λ c. pure (Provisioner.object_of typed c)) h)
ObjectCopied-of type P typed h p w others copying c = record {
  object = Provisioner.object_of typed c.copy;
  copy = c.copy;
  heap = c.heap;
  runs = rw (c.runs) refl;
  is = object_of-IsObject typed c.copy;
  copied = record {
    copy = c.copy;
    heap = c.heap;
    runs = refl;
    kept = c.kept;
    copy_stands = c.copy_stands;
    copy_apart = c.copy_apart;
    original_apart = c.original_apart;
  };
}

module _ (copy_meta : ObjectMeta → Cmd ObjectMeta)
    (meta-IsCopy : IsCopy Views.Metadata copy_meta) where
  -- If a pointer stands for a resource, or is nil, and the library's copy of metadata is deep, then
  -- `DeepCopy` ends with a pointer that stands for the same, and leaves every cell of the heap as
  -- it was. The copy stands for the same whatever becomes of the cells of before, and the original
  -- whatever becomes of the other cells.
  pub deep_copy-Copied :
      (h : Heap) (p : Ptr) (v : Option (TypeMeta × Api.NfsProvisioner)) (others : ℕ → Option Cell)
      → Ready 0 h
      → Pointer CellTypes.resources Views.Resource h p v
      → Copied CellTypes.resources Views.Resource h p v others (deep_copy copy_meta p h)
  deep_copy-Copied =
      IsCopy-Copied CellTypes.resources Views.Resource Resource-IsStable (deep_copy copy_meta)
        (deep_copy-IsCopy copy_meta meta-IsCopy)

  module _ (copy_list_meta : ListMeta → Cmd ListMeta)
      (list_meta-IsCopy : IsCopy Views.ListMetadata copy_list_meta) where
    -- If a pointer stands for a list of resources, or is nil, and the library's copies of metadata
    -- are deep, then `DeepCopy` ends with a pointer that stands for the same, and leaves every cell
    -- of the heap as it was. The copy stands for the same whatever becomes of the cells of before,
    -- and the original whatever becomes of the other cells.
    pub deep_copy_list-Copied :
        (h : Heap) (p : Ptr) (v : Option ResourceList) (others : ℕ → Option Cell)
        → Ready 0 h
        → Pointer CellTypes.resource_lists Views.Listing h p v
        → Copied CellTypes.resource_lists Views.Listing h p v others
            (deep_copy_list copy_meta copy_list_meta p h)
    deep_copy_list-Copied =
        IsCopy-Copied CellTypes.resource_lists Views.Listing Listing-IsStable
          (deep_copy_list copy_meta copy_list_meta)
          (deep_copy_list-IsCopy copy_meta meta-IsCopy copy_list_meta list_meta-IsCopy)

    -- If pointers stand for a resource and for a list, or are nil, and the library's copies of
    -- metadata are deep, then `DeepCopyObject` of each ends with an object of its type that is a
    -- pointer, which stands for the same and shares no cell with the original, as for `DeepCopy`,
    -- and leaves every cell of the heap as it was. Where the copy is nil the object is the nil
    -- object, never a nil pointer with a type.
    pub deep_copy_object-Copied :
        (h : Heap) (p q : Ptr) (v : Option (TypeMeta × Api.NfsProvisioner))
        (w : Option ResourceList) (others : ℕ → Option Cell)
        → Ready 0 h
        → Pointer CellTypes.resources Views.Resource h p v
        → Pointer CellTypes.resource_lists Views.Listing h q w
        → ObjectCopied CellTypes.resources Views.Resource nfs_provisioner h p v others
            (deep_copy_object copy_meta p h)
          × ObjectCopied CellTypes.resource_lists Views.Listing nfs_provisioner_list h q w others
              (deep_copy_list_object copy_meta copy_list_meta q h)
    unfolding deep_copy_object deep_copy_list_object
    deep_copy_object-Copied h p q v w others ready is_v is_w = (
      ObjectCopied-of CellTypes.resources Views.Resource nfs_provisioner h p v others
          (deep_copy copy_meta p) (deep_copy-Copied h p v others ready is_v),
      ObjectCopied-of CellTypes.resource_lists Views.Listing nfs_provisioner_list h q w others
          (deep_copy_list copy_meta copy_list_meta q)
          (deep_copy_list-Copied h q w others ready is_w),
    )
