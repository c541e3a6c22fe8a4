-- ===== src/DeepCopy/Status/Laws.antt =====
-- The deep copies of a status.
use nfs_provisioner_operator.Base.{◌≡◌, refl, ◌∙◌, ap, List, [], ◌∷◌}
use nfs_provisioner_operator.DeepCopy.CellTypes
use nfs_provisioner_operator.DeepCopy.Heap.{new}
use nfs_provisioner_operator.DeepCopy.Go.{make, copy}
use nfs_provisioner_operator.DeepCopy.Views
use nfs_provisioner_operator.DeepCopy.Views.{Pointer, nil, to, Plain}
use nfs_provisioner_operator.DeepCopy.Status.{copy_nodes, deep_copy_into, zero_value, deep_copy}
use nfs_provisioner_operator.DeepCopy.Fresh.{IsCopy, pure_rule, copy_rule}
use nfs_provisioner_operator.DeepCopy.Fresh.Stable.{
  Pointer-IsStable, Plain-IsStable, Status-IsStable,
}
use nfs_provisioner_operator.DeepCopy.Fresh.Open.{new-Open, store-Open, load-Open, store_lem, close}
use nfs_provisioner_operator.DeepCopy.Fresh.Pointers.{load_lem, copy_pointer-IsCopy}

copy-make : {A : Type 0} (x : A) (xs : List A) → copy (make x xs) xs ≡ xs
copy-make x [] = refl
copy-make x (y ∷ ys) = ap (λ zs. y ∷ zs) (copy-make x ys)

copy_nodes-IsCopy : IsCopy (Pointer CellTypes.string_slices Plain) copy_nodes
unfolding copy_nodes new
copy_nodes-IsCopy n h x v ready nil = pure_rule _ ready nil
copy_nodes-IsCopy n h x v ready (to {a} {v = xs} {w} at is) =
    let type = CellTypes.string_slices in
    let made = new-Open type n h (make "" xs) ready in
    let filled = store-Open made (type.wrap (copy (make "" xs) xs)) in
    rw (load_lem type h a xs at, load-Open type made, store_lem type made (copy (make "" xs) xs))
      (close type filled Plain w Plain-IsStable (copy-make "" xs ∙ is))

pub deep_copy_into-IsCopy : IsCopy Views.Status deep_copy_into
unfolding deep_copy_into
deep_copy_into-IsCopy n h x v ready is =
    copy_rule _ _ _ _ v.nodes (Pointer-IsStable CellTypes.string_slices Plain Plain-IsStable)
      copy_nodes-IsCopy ready is.nodes
      λ p g ready_g e at_p.
        pure_rule _ ready_g (record { nodes = at_p g (λ a c at. at); error = is.error })

pub deep_copy-IsCopy : IsCopy (Pointer CellTypes.statuses Views.Status) deep_copy
unfolding deep_copy
deep_copy-IsCopy =
    copy_pointer-IsCopy CellTypes.statuses Views.Status zero_value deep_copy_into Status-IsStable
      deep_copy_into-IsCopy
