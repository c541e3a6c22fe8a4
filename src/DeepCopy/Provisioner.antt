-- ===== src/DeepCopy/Provisioner.antt =====
-- `NFSProvisioner` and `NFSProvisionerList` of zz_generated.deepcopy.go.
pub mod Copies
use nfs_provisioner_operator.Base.{ℕ, suc, none, some, List, [], ◌∷◌}
use nfs_provisioner_operator.DeepCopy.Types.{
  Ptr, TypeMeta, ObjectMeta, ListMeta, NfsProvisioner, NfsProvisionerList,
}
use nfs_provisioner_operator.DeepCopy.CellTypes
use nfs_provisioner_operator.DeepCopy.Heap.{Cmd, pure, ◌>>=◌, ◌>>◌, new, load, store}
use nfs_provisioner_operator.DeepCopy.Go.{make, set_at, or_panic, copy_pointer}
use nfs_provisioner_operator.DeepCopy.Spec
use nfs_provisioner_operator.DeepCopy.Status

-- A `runtime.Object`: the interface that is nil, or a pointer with its type.
pub data RuntimeObject : Type 0 where
  nil : RuntimeObject
  nfs_provisioner : Ptr → RuntimeObject
  nfs_provisioner_list : Ptr → RuntimeObject

-- `if c := in.DeepCopy(); c != nil { return c }; return nil`
abbrev pub object_of : (Ptr → RuntimeObject) → Ptr → RuntimeObject
object_of wrap none = nil
object_of wrap (some a) = wrap (some a)

abbrev zero_type_meta : TypeMeta
zero_type_meta = record { kind = ""; api_version = "" }

abbrev zero_meta : ObjectMeta
zero_meta = record {
  name = "";
  generate_name = "";
  namespace = "";
  uid = "";
  resource_version = "";
  deletion_timestamp = none;
  labels = none;
  annotations = none;
  owner_references = none;
  finalizers = none;
}

abbrev pub zero_provisioner : NfsProvisioner
unfolding zero_type_meta zero_meta
zero_provisioner = record {
  type_meta = zero_type_meta;
  metadata = zero_meta;
  spec = Spec.zero_value;
  status = Status.zero_value;
}

abbrev pub zero_list : NfsProvisionerList
unfolding zero_type_meta
zero_list = record {
  type_meta = zero_type_meta;
  metadata = record { resource_version = ""; continue_token = ""; remaining_item_count = none };
  items = none;
}

-- `copy_meta` is `DeepCopyInto` of the library's `ObjectMeta`, and `copy_list_meta` that of its
-- `ListMeta`.
module _ (copy_meta : ObjectMeta → Cmd ObjectMeta) where
  unfoldable pub deep_copy_into : NfsProvisioner → Cmd NfsProvisioner
  deep_copy_into x = do
    metadata ← copy_meta x.metadata
    spec ← Spec.deep_copy_into x.spec
    status ← Status.deep_copy_into x.status
    pure (record x { metadata = metadata; spec = spec; status = status })

  unfoldable pub deep_copy : Ptr → Cmd Ptr
  deep_copy = copy_pointer CellTypes.resources zero_provisioner deep_copy_into

  unfoldable pub deep_copy_object : Ptr → Cmd RuntimeObject
  deep_copy_object p = do pure (object_of nfs_provisioner (← deep_copy p))

  -- `for i := range in { in[i].DeepCopyInto(&out[i]) }` from an index on
  unfoldable pub copy_each : ℕ → ℕ → List NfsProvisioner → Cmd (Unit {0})
  copy_each out i [] = pure tt
  copy_each out i (x ∷ xs) = do
    y ← deep_copy_into x
    ys ← load CellTypes.resource_slices out
    zs ← or_panic (set_at i y ys)
    store CellTypes.resource_slices out zs
    copy_each out (suc i) xs

  unfoldable pub copy_items : Ptr → Cmd Ptr
  copy_items none = pure none
  copy_items (some a) = do
    xs ← load CellTypes.resource_slices a
    out ← new CellTypes.resource_slices (make zero_provisioner xs)
    copy_each out 0 xs
    pure (some out)

  module _ (copy_list_meta : ListMeta → Cmd ListMeta) where
    unfoldable pub deep_copy_list_into : NfsProvisionerList → Cmd NfsProvisionerList
    deep_copy_list_into x = do
      metadata ← copy_list_meta x.metadata
      items ← copy_items x.items
      pure (record x { metadata = metadata; items = items })

    unfoldable pub deep_copy_list : Ptr → Cmd Ptr
    deep_copy_list = copy_pointer CellTypes.resource_lists zero_list deep_copy_list_into

    unfoldable pub deep_copy_list_object : Ptr → Cmd RuntimeObject
    deep_copy_list_object p = do pure (object_of nfs_provisioner_list (← deep_copy_list p))
