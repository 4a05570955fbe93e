-- ===== src/Api.antt =====
-- api/v1alpha1: the custom resources of the operator.
pub mod Run
pub mod Report
pub mod ConsolePlugin
pub use Run.{
  NamespacedName, CertsuiteRun, CertsuiteRunSpec, CertsuiteRunStatus,
  status_phase_cert_suite_deploying, status_phase_cert_suite_deploy_error,
  status_phase_cert_suite_running, allowed_phases,
}
pub use Report.{
  CertsuiteReport, TestCaseResult, CertsuiteReportStatusSummary, CnfTargets, CnfPod, CnfResource,
  TargetResource, TargetResources, status_state_passed, status_state_skipped, status_state_failed,
  status_state_error, status_verdict_pass, status_verdict_skip, status_verdict_fail,
  status_verdict_error,
}
pub use ConsolePlugin.{CertsuiteConsolePlugin, Condition}
