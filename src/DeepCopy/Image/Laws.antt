-- ===== src/DeepCopy/Image/Laws.antt =====
-- The deep copies of an image configuration.
use nfs_provisioner_operator.DeepCopy.CellTypes
use nfs_provisioner_operator.DeepCopy.Heap.{pure}
use nfs_provisioner_operator.DeepCopy.Go.{copy_pointer}
use nfs_provisioner_operator.DeepCopy.Views
use nfs_provisioner_operator.DeepCopy.Views.{Pointer, Plain}
use nfs_provisioner_operator.DeepCopy.Image.{deep_copy_into, zero_value, deep_copy}
use nfs_provisioner_operator.DeepCopy.Fresh.{IsStable, IsCopy, pure_rule, copy_rule}
use nfs_provisioner_operator.DeepCopy.Fresh.Stable.{
  Pointer-IsStable, Plain-IsStable, Image-IsStable,
}
use nfs_provisioner_operator.DeepCopy.Fresh.Pointers.{pure-IsCopy, copy_pointer-IsCopy}

pointer-IsCopy : IsCopy (Pointer CellTypes.strings Plain) (copy_pointer CellTypes.strings "" pure)
pointer-IsCopy = copy_pointer-IsCopy CellTypes.strings Plain "" pure Plain-IsStable pure-IsCopy

pointer-IsStable : IsStable (Pointer CellTypes.strings Plain)
pointer-IsStable = Pointer-IsStable CellTypes.strings Plain Plain-IsStable

pub deep_copy_into-IsCopy : IsCopy Views.Image deep_copy_into
unfolding deep_copy_into
deep_copy_into-IsCopy n h x v ready is =
    copy_rule _ _ _ _ v.image pointer-IsStable pointer-IsCopy ready is.image λ p g ready_g e at_p.
      copy_rule _ _ _ _ v.image_pull_policy pointer-IsStable pointer-IsCopy ready_g
        (pointer-IsStable h g e x.image_pull_policy v.image_pull_policy is.image_pull_policy)
        λ q g' ready' e' at_q.
          pure_rule _ ready'
            (record { image = at_p g' e'; image_pull_policy = at_q g' (λ a c at. at) })

pub deep_copy-IsCopy : IsCopy (Pointer CellTypes.image_configurations Views.Image) deep_copy
unfolding deep_copy
deep_copy-IsCopy =
    copy_pointer-IsCopy CellTypes.image_configurations Views.Image zero_value deep_copy_into
      Image-IsStable deep_copy_into-IsCopy
