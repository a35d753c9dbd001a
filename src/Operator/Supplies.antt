-- ===== src/Operator/Supplies.antt =====
-- Reconcile, reconcileSecrets, reconcileConfigMap, reconcilePVCs and reconcileStatefulSet: what they
-- leave in the namespace for the workspace's pods.
pub mod Stored
pub mod Parts
pub mod Reconciled
pub mod Needs
pub mod First
