-- ===== src/DeepCopy.antt =====
-- api/v1alpha1/zz_generated.deepcopy.go: the deep copies of the custom resource, over a heap.
pub mod Types
pub mod CellTypes
pub mod Heap
pub mod Go
pub mod Image
pub mod Spec
pub mod Status
pub mod Provisioner
pub mod Views
pub mod Fresh
pub mod Separation
pub mod Laws
mod Examples
