-- ===== src/DeepCopy/Examples/Meta.antt =====
-- A deep copy of metadata, in the place of the library's.
use nfs_provisioner_operator.Base.{Option, none, some, List, [], refl, ◌≡◌, subst}
use nfs_provisioner_operator.DeepCopy.Types.{Ptr, ObjectMeta, ListMeta, CellType}
use nfs_provisioner_operator.DeepCopy.CellTypes
use nfs_provisioner_operator.DeepCopy.Heap.{Heap, value_at, Cmd, pure, ◌>>=◌}
use nfs_provisioner_operator.DeepCopy.Go.{copy_pointer}
use nfs_provisioner_operator.DeepCopy.Views
use nfs_provisioner_operator.DeepCopy.Views.{
  View, Pointer, Slice, nil, to, elements, Plain, Entries,
}
use nfs_provisioner_operator.DeepCopy.Fresh.{
  IsStable, IsCopy, Extends-trans, from, pure_rule, copy_rule,
}
use nfs_provisioner_operator.DeepCopy.Fresh.Stable.{
  Pointer-IsStable, Plain-IsStable, Entries-IsStable,
}
use nfs_provisioner_operator.DeepCopy.Fresh.Pointers.{pure-IsCopy, copy_pointer-IsCopy}

unfoldable copy_number : Ptr → Cmd Ptr
copy_number = copy_pointer CellTypes.numbers 0 pure

unfoldable copy_map : Ptr → Cmd Ptr
copy_map = copy_pointer CellTypes.string_maps [] pure

unfoldable copy_owners : Ptr → Cmd Ptr
copy_owners = copy_pointer CellTypes.owner_slices [] pure

unfoldable copy_strings : Ptr → Cmd Ptr
copy_strings = copy_pointer CellTypes.string_slices [] pure

unfoldable pub copy_meta : ObjectMeta → Cmd ObjectMeta
unfolding copy_number copy_map copy_owners copy_strings
copy_meta x = do
  deletion_timestamp ← copy_number x.deletion_timestamp
  labels ← copy_map x.labels
  annotations ← copy_map x.annotations
  owner_references ← copy_owners x.owner_references
  finalizers ← copy_strings x.finalizers
  pure (record x {
    deletion_timestamp = deletion_timestamp;
    labels = labels;
    annotations = annotations;
    owner_references = owner_references;
    finalizers = finalizers;
  })

unfoldable pub copy_list_meta : ListMeta → Cmd ListMeta
unfolding copy_number
copy_list_meta x = do
  pure (record x { remaining_item_count = (← copy_number x.remaining_item_count) })

entries-IsCopy : IsCopy Entries pure
entries-IsCopy n h x v ready is = pure_rule x ready is

map-IsCopy : IsCopy (Pointer CellTypes.string_maps Entries) copy_map
unfolding copy_map
map-IsCopy =
    copy_pointer-IsCopy CellTypes.string_maps Entries [] pure Entries-IsStable entries-IsCopy

plain-IsCopy :
    {V : Type 0} (type : CellType V) (zero_value : V)
    → IsCopy (Pointer type Plain) (copy_pointer type zero_value pure)
plain-IsCopy type zero_value =
    copy_pointer-IsCopy type Plain zero_value pure Plain-IsStable pure-IsCopy

plain-IsStable : {V : Type 0} (type : CellType V) → IsStable (Pointer type Plain)
plain-IsStable type = Pointer-IsStable type Plain Plain-IsStable

number-IsCopy : IsCopy (Pointer CellTypes.numbers Plain) copy_number
unfolding copy_number
number-IsCopy = plain-IsCopy CellTypes.numbers 0

owners-IsCopy : IsCopy (Pointer CellTypes.owner_slices Plain) copy_owners
unfolding copy_owners
owners-IsCopy = plain-IsCopy CellTypes.owner_slices []

strings-IsCopy : IsCopy (Pointer CellTypes.string_slices Plain) copy_strings
unfolding copy_strings
strings-IsCopy = plain-IsCopy CellTypes.string_slices []

-- A slice is a pointer to its elements, nil with none.
Slice-Pointer :
    {V : Type 0} (type : CellType (List V)) (h : Heap) (p : Ptr) (xs : List V)
    → Slice type h p xs
    → (w : Option (List V)) × Pointer type Plain h p w
      × ((g : Heap) (q : Ptr) → Pointer type Plain g q w → Slice type g q xs)
Slice-Pointer type h p xs nil = (none, nil, λ g q is. back g q is)
  where
    back : (g : Heap) (q : Ptr) → Pointer type Plain g q none → Slice type g q []
    back g q nil = nil
Slice-Pointer type h p xs (elements {a} {xs = ys} at) = (some ys, to at refl, λ g q is. back g q is)
  where
    back : (g : Heap) (q : Ptr) → Pointer type Plain g q (some ys) → Slice type g q ys
    back g q (to {a = b} {v} at' e) = elements (subst (λ l. value_at type g b ≡ some l) e at')

pub copy_list_meta-IsCopy : IsCopy Views.ListMetadata copy_list_meta
unfolding copy_list_meta
copy_list_meta-IsCopy n h x v ready is =
    copy_rule (Pointer CellTypes.numbers Plain) _ _ _ v.remaining_item_count
      (plain-IsStable CellTypes.numbers) number-IsCopy ready is.remaining_item_count
      λ p g ready_g e at_p. pure_rule _ ready_g (record {
        resource_version = is.resource_version;
        continue_token = is.continue_token;
        remaining_item_count = at_p g (λ a c at. at);
      })

map-IsStable : IsStable (Pointer CellTypes.string_maps Entries)
map-IsStable = Pointer-IsStable CellTypes.string_maps Entries Entries-IsStable

pub copy_meta-IsCopy : IsCopy Views.Metadata copy_meta
unfolding copy_meta
copy_meta-IsCopy n h x v ready is =
    let (os, is_os, back_os) =
      Slice-Pointer CellTypes.owner_slices h x.owner_references v.owner_references
        is.owner_references in
    let (fs, is_fs, back_fs) =
      Slice-Pointer CellTypes.string_slices h x.finalizers v.finalizers is.finalizers in
    copy_rule _ _ _ _ v.deletion_timestamp (plain-IsStable CellTypes.numbers) number-IsCopy ready
      is.deletion_timestamp
      λ p1 g1 r1 e1 at1.
        copy_rule _ _ _ _ v.labels map-IsStable map-IsCopy r1
          (map-IsStable h g1 e1 x.labels v.labels is.labels)
          λ p2 g2 r2 e2 at2.
            let e12 = Extends-trans h g1 g2 e1 e2 in
            copy_rule _ _ _ _ v.annotations map-IsStable map-IsCopy r2
              (map-IsStable h g2 e12 x.annotations v.annotations is.annotations)
              λ p3 g3 r3 e3 at3.
                let e13 = Extends-trans h g2 g3 e12 e3 in
                copy_rule _ _ _ _ os (plain-IsStable CellTypes.owner_slices) owners-IsCopy r3
                  (plain-IsStable CellTypes.owner_slices h g3 e13 x.owner_references os is_os)
                  λ p4 g4 r4 e4 at4.
                    let e14 = Extends-trans h g3 g4 e13 e4 in
                    copy_rule _ _ _ _ fs (plain-IsStable CellTypes.string_slices) strings-IsCopy r4
                      (plain-IsStable CellTypes.string_slices h g4 e14 x.finalizers fs is_fs)
                      λ p5 g5 r5 e5 at5.
                        let e35 = Extends-trans g3 g4 g5 e4 e5 in
                        let e25 = Extends-trans g2 g3 g5 e3 e35 in
                        pure_rule _ r5 (record {
                          name = is.name;
                          generate_name = is.generate_name;
                          namespace = is.namespace;
                          uid = is.uid;
                          resource_version = is.resource_version;
                          deletion_timestamp = at1 g5 (Extends-trans g1 g2 g5 e2 e25);
                          labels = at2 g5 e25;
                          annotations = at3 g5 e35;
                          owner_references = back_os (from n g5) p4 (at4 g5 e5);
                          finalizers = back_fs (from n g5) p5 (at5 g5 (λ a c at. at));
                        })
