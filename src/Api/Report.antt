-- ===== src/Api/Report.antt =====
-- The report of a run, of api/v1alpha1/certsuiterun_types.go. A nil slice and an empty one are one
-- value; a Go `int` that counts list items is a number, since no list is longer than 2^63.
use cnf_certsuite_operator.Prelude.{ℕ, String, Option, List}
use cnf_certsuite_operator.Prelude.Dict.{Dict}

abbrev pub status_state_passed : String
status_state_passed = "passed"

abbrev pub status_state_skipped : String
status_state_skipped = "skipped"

abbrev pub status_state_failed : String
status_state_failed = "failed"

abbrev pub status_state_error : String
status_state_error = "error"

abbrev pub status_verdict_pass : String
status_verdict_pass = "pass"

abbrev pub status_verdict_skip : String
status_verdict_skip = "skip"

abbrev pub status_verdict_fail : String
status_verdict_fail = "fail"

abbrev pub status_verdict_error : String
status_verdict_error = "error"

pub record CnfPod : Type 0 where
  pub name : String
  pub namespace : String
  pub containers : List String

pub record CnfResource : Type 0 where
  pub name : String
  pub namespace : String

pub record CnfTargets : Type 0 where
  pub namespaces : List String
  pub nodes : List String
  pub pods : List CnfPod
  pub deployments : List CnfResource
  pub stateful_sets : List CnfResource
  pub csvs : List CnfResource
  pub crds : List String
  pub services : List CnfResource
  pub helm_chart_releases : List CnfResource

abbrev pub TargetResource : Type 0
TargetResource = Dict String String

pub record TargetResources : Type 0 where
  pub compliant : List TargetResource
  pub non_compliant : List TargetResource

pub record TestCaseResult : Type 0 where
  pub test_case_name : String
  pub description : String
  pub result : String
  pub reason : String
  pub remediation : String
  pub logs : String
  pub target_resources : Option TargetResources

pub record CertsuiteReportStatusSummary : Type 0 where
  pub total : ℕ
  pub passed : ℕ
  pub skipped : ℕ
  pub failed : ℕ
  pub errored : ℕ

pub record CertsuiteReport : Type 0 where
  pub verdict : String
  pub ocp_version : String
  pub cnf_cert_suite_version : String
  pub cnf_targets : CnfTargets
  pub summary : CertsuiteReportStatusSummary
  pub results : List TestCaseResult
