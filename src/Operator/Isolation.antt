-- ===== src/Operator/Isolation.antt =====
-- Which objects of the cluster a reconciliation can touch, and what a deletion asks of it.
pub mod Calls
pub mod Away
pub mod Resources
pub mod Inside
pub mod Reconcile
pub mod Policy
pub mod Leads
pub mod Order
pub mod Deletion
