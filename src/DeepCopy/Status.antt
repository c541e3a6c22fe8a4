-- ===== src/DeepCopy/Status.antt =====
-- `NFSProvisionerStatus` of zz_generated.deepcopy.go.
pub mod Laws
use nfs_provisioner_operator.Base.{none, some}
use nfs_provisioner_operator.DeepCopy.Types.{Ptr, NfsProvisionerStatus}
use nfs_provisioner_operator.DeepCopy.CellTypes
use nfs_provisioner_operator.DeepCopy.Heap.{Cmd, pure, ◌>>=◌, ◌>>◌, new, load, store}
use nfs_provisioner_operator.DeepCopy.Go.{make, copy, copy_pointer}

unfoldable pub copy_nodes : Ptr → Cmd Ptr
copy_nodes none = pure none
copy_nodes (some a) = do
  xs ← load CellTypes.string_slices a
  out ← new CellTypes.string_slices (make "" xs)
  ys ← load CellTypes.string_slices out
  store CellTypes.string_slices out (copy ys xs)
  pure (some out)

unfoldable pub deep_copy_into : NfsProvisionerStatus → Cmd NfsProvisionerStatus
deep_copy_into x = do pure (record x { nodes = (← copy_nodes x.nodes) })

abbrev pub zero_value : NfsProvisionerStatus
zero_value = record { nodes = none; error = "" }

unfoldable pub deep_copy : Ptr → Cmd Ptr
deep_copy = copy_pointer CellTypes.statuses zero_value deep_copy_into
