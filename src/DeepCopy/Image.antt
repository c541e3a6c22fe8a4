-- ===== src/DeepCopy/Image.antt =====
-- `ImageConfiguration` of zz_generated.deepcopy.go. A `DeepCopyInto` starts with `*out = *in`, so it
-- is a command from the value of `in` to the value that it leaves in `out`.
pub mod Laws
use nfs_provisioner_operator.Base.{none}
use nfs_provisioner_operator.DeepCopy.Types.{Ptr, ImageConfiguration}
use nfs_provisioner_operator.DeepCopy.CellTypes
use nfs_provisioner_operator.DeepCopy.Heap.{Cmd, pure, ◌>>=◌}
use nfs_provisioner_operator.DeepCopy.Go.{copy_pointer}

unfoldable pub deep_copy_into : ImageConfiguration → Cmd ImageConfiguration
deep_copy_into x = do
  image ← copy_pointer CellTypes.strings "" pure x.image
  image_pull_policy ← copy_pointer CellTypes.strings "" pure x.image_pull_policy
  pure (record x { image = image; image_pull_policy = image_pull_policy })

abbrev pub zero_value : ImageConfiguration
zero_value = record { image = none; image_pull_policy = none }

unfoldable pub deep_copy : Ptr → Cmd Ptr
deep_copy = copy_pointer CellTypes.image_configurations zero_value deep_copy_into
