-- ===== src/DeepCopy/Spec.antt =====
-- `NFSProvisionerSpec` of zz_generated.deepcopy.go.
pub mod Laws
use nfs_provisioner_operator.Base.{ℕ, String, none, some, List, [], ◌∷◌}
use nfs_provisioner_operator.DeepCopy.Types.{Ptr, NfsProvisionerSpec}
use nfs_provisioner_operator.DeepCopy.CellTypes
use nfs_provisioner_operator.DeepCopy.Heap.{Cmd, pure, ◌>>=◌, ◌>>◌, new, load, store}
use nfs_provisioner_operator.DeepCopy.Go.{put, copy_pointer}
use nfs_provisioner_operator.DeepCopy.Image

-- `for key, val := range m { out[key] = val }`
unfoldable pub copy_entries : ℕ → List (String × String) → Cmd (Unit {0})
copy_entries out [] = pure tt
copy_entries out ((key, val) ∷ m) = do
  copied ← load CellTypes.string_maps out
  store CellTypes.string_maps out (put key val copied)
  copy_entries out m

unfoldable pub copy_node_selector : Ptr → Cmd Ptr
copy_node_selector none = pure none
copy_node_selector (some a) = do
  out ← new CellTypes.string_maps []
  m ← load CellTypes.string_maps a
  copy_entries out m
  pure (some out)

unfoldable pub deep_copy_into : NfsProvisionerSpec → Cmd NfsProvisionerSpec
deep_copy_into x = do
  node_selector ← copy_node_selector x.node_selector
  image ←
      copy_pointer CellTypes.image_configurations Image.zero_value Image.deep_copy_into
        x.nfs_image_configuration
  pure (record x { node_selector = node_selector; nfs_image_configuration = image })

abbrev pub zero_value : NfsProvisionerSpec
zero_value = record {
  host_path_dir = "";
  pvc = "";
  storage_size = "";
  sc_for_nfs_pvc = "";
  node_selector = none;
  sc_for_nfs_provisioner = "";
  nfs_image_configuration = none;
}

unfoldable pub deep_copy : Ptr → Cmd Ptr
deep_copy = copy_pointer CellTypes.specs zero_value deep_copy_into
