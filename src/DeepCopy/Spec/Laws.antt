-- ===== src/DeepCopy/Spec/Laws.antt =====
-- The deep copies of a spec.
use nfs_provisioner_operator.Base
use nfs_provisioner_operator.Base.{
  ℕ, String, ◌≡◌, refl, ◌∙◌, ap, Bool, false, ◌||◌, some, List, [], ◌∷◌, ◌++◌, arith, Bool-cases,
  eq_iff, sym, subst,
}
use nfs_provisioner_operator.DeepCopy.CellTypes
use nfs_provisioner_operator.DeepCopy.Heap.{Heap, new, write}
use mathlib.Core.List.{append-nil, append_assoc}
use nfs_provisioner_operator.DeepCopy.Go.{put}
use nfs_provisioner_operator.DeepCopy.Views
use nfs_provisioner_operator.DeepCopy.Views.{Pointer, nil, to, has_key, Distinct, Entries}
use nfs_provisioner_operator.DeepCopy.Image
use nfs_provisioner_operator.DeepCopy.Image.Laws
use nfs_provisioner_operator.DeepCopy.Spec.{
  copy_entries, copy_node_selector, deep_copy_into, zero_value, deep_copy,
}
use nfs_provisioner_operator.DeepCopy.Fresh.{IsStable, IsCopy, pure_rule, copy_rule}
use nfs_provisioner_operator.DeepCopy.Fresh.Stable.{
  value_at-kept, Pointer-IsStable, Entries-IsStable, Image-IsStable, Spec-IsStable,
}
use nfs_provisioner_operator.DeepCopy.Fresh.Open.{
  Open, opened, new-Open, store-Open, load-Open, store_lem, close,
}
use nfs_provisioner_operator.DeepCopy.Fresh.Pointers.{load_lem, copy_pointer-IsCopy}

-- An assignment to a key that is not there adds the entry at the end.
put-append :
    (key val : String) (m : List (String × String))
    → has_key key m ≡ false
    → put key val m ≡ m ++ (key, val) ∷ []
put-append key val [] e = refl
put-append key val ((k, v) ∷ m) e = ground (arith, put-append key val m)

has_key-append_ne :
    (k : String) (m : List (String × String)) (key val : String) (n : List (String × String))
    → has_key k (m ++ (key, val) ∷ n) ≡ false
    → Base.◌==◌ k key ≡ false
has_key-append_ne k [] key val n e = ground (arith, eq_iff key k, eq_iff k key)
has_key-append_ne k ((j, _) ∷ m) key val n e = has_key-append_ne k m key val n (ground arith)

-- A key of the later entries is not one of the earlier.
Distinct-has_key :
    (m : List (String × String)) (key val : String) (n : List (String × String))
    → Distinct (m ++ (key, val) ∷ n)
    → has_key key m ≡ false
Distinct-has_key [] key val n d = refl
Distinct-has_key ((k, v) ∷ m) key val n (first, later) =
    ground (arith, has_key-append_ne k m key val n first, Distinct-has_key m key val n later)

-- The loop adds the entries to those that the new map has.
copy_entries-Open :
    (n : ℕ) (h : Heap) (b : ℕ) (done rest : List (String × String)) (g : Heap)
    → Open n h b (CellTypes.string_maps.wrap done) g
    → Distinct (done ++ rest)
    → (g' : Heap) × (copy_entries b rest g ≡ some (tt, g'))
      × Open n h b (CellTypes.string_maps.wrap (done ++ rest)) g'
unfolding copy_entries
copy_entries-Open n h b done [] g o d =
    (g, refl, subst (λ l. Open n h b (CellTypes.string_maps.wrap l) g) (sym (append-nil done)) o)
copy_entries-Open n h b done ((key, val) ∷ rest) g o d =
    let type = CellTypes.string_maps in
    let spare = Distinct-has_key done key val rest d in
    let added =
      subst (λ l. Open n h b (type.wrap l) (write b (type.wrap (put key val done)) g))
        (put-append key val done spare) (store-Open o (type.wrap (put key val done))) in
    let (g', runs, last) =
      copy_entries-Open n h b (done ++ (key, val) ∷ []) rest _ added
        (subst Distinct (sym (append_assoc done ((key, val) ∷ []) rest)) d) in
    (
      g',
      rw (load-Open type o, store_lem type o (put key val done)) runs,
      subst (λ l. Open n h b (type.wrap l) g') (append_assoc done ((key, val) ∷ []) rest) last,
    )

copy_node_selector-IsCopy : IsCopy (Pointer CellTypes.string_maps Entries) copy_node_selector
unfolding copy_node_selector new
copy_node_selector-IsCopy n h x v ready nil = pure_rule _ ready nil
copy_node_selector-IsCopy n h x v ready (to {a} {v = m} {w} at (same, distinct)) =
    let type = CellTypes.string_maps in
    let made = new-Open type n h [] ready in
    let here = value_at-kept type h (opened type [] h) made.kept a m at in
    let (g, runs, last) = copy_entries-Open n h h.top [] m (opened type [] h) made distinct in
    rw (load_lem type (opened type [] h) a m here, runs)
      (close type last Entries w Entries-IsStable (same, distinct))

pub deep_copy_into-IsCopy : IsCopy Views.Spec deep_copy_into
unfolding deep_copy_into
deep_copy_into-IsCopy n h x v ready is =
    copy_rule _ _ _ _ v.node_selector
      (Pointer-IsStable CellTypes.string_maps Entries Entries-IsStable) copy_node_selector-IsCopy
      ready is.node_selector
      λ p g ready_g e at_p.
        copy_rule _ _ _ _ v.nfs_image_configuration image-IsStable
          (copy_pointer-IsCopy CellTypes.image_configurations Views.Image Image.zero_value
            Image.deep_copy_into Image-IsStable Image.Laws.deep_copy_into-IsCopy)
          ready_g
          (image-IsStable h g e x.nfs_image_configuration v.nfs_image_configuration
            is.nfs_image_configuration)
          λ q g' ready' e' at_q. pure_rule _ ready' (record {
            host_path_dir = is.host_path_dir;
            pvc = is.pvc;
            storage_size = is.storage_size;
            sc_for_nfs_pvc = is.sc_for_nfs_pvc;
            node_selector = at_p g' e';
            sc_for_nfs_provisioner = is.sc_for_nfs_provisioner;
            nfs_image_configuration = at_q g' (λ a c at. at);
          })
  where
    image-IsStable : IsStable (Pointer CellTypes.image_configurations Views.Image)
    image-IsStable = Pointer-IsStable CellTypes.image_configurations Views.Image Image-IsStable

pub deep_copy-IsCopy : IsCopy (Pointer CellTypes.specs Views.Spec) deep_copy
unfolding deep_copy
deep_copy-IsCopy =
    copy_pointer-IsCopy CellTypes.specs Views.Spec zero_value deep_copy_into Spec-IsStable
      deep_copy_into-IsCopy
