-- ===== src/ConsolePlugin.antt =====
-- internal/controller/certsuiteconsoleplugin_controller.go: the reconciler that creates and
-- deletes the resources of the OpenShift console plugin.
pub mod Platform
pub mod Calls
pub mod Objects
pub mod Actions
pub mod Loaded
pub mod Installed
pub mod Removed
pub mod Reconciled
mod Examples
