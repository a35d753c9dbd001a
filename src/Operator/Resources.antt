-- ===== src/Operator/Resources.antt =====
-- operator/internal/controller/: one module for each file that reconciles a kind of resource.
pub mod Owned
pub mod Names
pub mod Claims
pub mod Network
pub mod Tailscale
pub mod Workload
pub mod Kubedock
pub mod Secrets
pub mod Password
pub mod Config
