-- ===== src/Operator.antt =====
-- operator/: the Kubernetes operator that keeps a workspace's resources as its spec says.
pub mod Exec
pub mod Api
pub mod Object
pub mod Selector
pub mod Client
pub mod EmailMap
pub mod Resources
pub mod Contract
pub mod Isolation
pub mod Memory
pub mod Reconcile
pub mod Supplies
pub mod Steady
pub mod DeepCopy
pub mod Main
pub mod Permissions
pub mod Tests
