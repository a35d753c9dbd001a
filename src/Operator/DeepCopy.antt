-- ===== src/Operator/DeepCopy.antt =====
-- operator/api/v1alpha1/zz_generated.deepcopy.go
pub mod Heap
pub mod Slices
pub mod Structs
pub mod Types
pub mod Cells
pub mod Plain
pub mod Specs
pub mod Servers
pub mod Workspaces
pub mod Deep
pub mod Independent
pub mod Objects
