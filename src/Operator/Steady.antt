-- ===== src/Operator/Steady.antt =====
-- The functions that the operator gives to CreateOrUpdate, applied to what they have answered.
pub mod Metadata
pub mod Shape
pub mod Mutations
pub mod Again
