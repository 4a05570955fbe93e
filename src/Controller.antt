-- ===== src/Controller.antt =====
-- internal/controller/certsuiterun_controller.go: the reconciler of CertsuiteRun resources.
pub mod RunPod
pub mod Cluster
pub mod State
pub mod Status
pub mod EndOfRun
pub mod Reconcile
pub mod Frame
pub mod Quiet
pub mod Registry
pub mod Names
pub mod Ledger
pub mod Life
pub mod Events
pub mod Queue
pub mod Memory
pub mod Examples
pub mod Reached
pub mod Updates
pub mod Tried
pub mod Keeps
pub mod Writes
pub mod Returns
