-- ===== src/Router.antt =====
-- images/router/main.go: the authenticating reverse proxy before the users' workspaces.
pub mod Host
pub mod Access
pub mod Watch
mod Tests
