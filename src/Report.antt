-- ===== src/Report.antt =====
-- certsuite-sidecar/app/cnf-cert-suite-report/cnfcertsuitereport.go: the status that the sidecar
-- sets from a claim. `encoding/json`'s decoding of the check details is the parameter
-- `unmarshal`, with `none` for an error.
pub mod Targets
pub mod Exact
pub mod Details
mod States
pub mod Summary
pub mod Malformed
pub mod Results
pub mod Fields
pub mod Order
pub mod Examples
use cnf_certsuite_operator.Prelude.{
  String, ◌+◌, Bool, true, false, ◌&&◌, ◌||◌, Option, none, some, List, [], ◌∷◌, ◌++◌, str_eq, leb,
  ◌==◌, if◌then◌else◌,
}
use cnf_certsuite_operator.Go.{Result, ok, ◌>>=◌}
use cnf_certsuite_operator.Claim
use cnf_certsuite_operator.Claim.{Schema}
use cnf_certsuite_operator.Api.{
  CertsuiteRun, CertsuiteRunSpec, CertsuiteReport, TestCaseResult, CertsuiteReportStatusSummary,
  CnfTargets, status_state_passed, status_state_skipped, status_state_failed, status_state_error,
  status_verdict_pass, status_verdict_skip, status_verdict_fail, status_verdict_error,
}
use Targets.{get_cnf_targets_from_claim, no_targets}
use Details.{CheckDetails, get_target_resources_from_claim}

pub record Config : Type 0 where
  pub report_cr_name : String
  pub namespace : String
  pub cert_suite_config_run_name : String
  pub ocp_version : String
  pub cnf_cert_suite_version : String
  pub cnf : CnfTargets

abbrev pub no_tests : CertsuiteReportStatusSummary
no_tests = record { total = 0; passed = 0; skipped = 0; failed = 0; errored = 0 }

unfoldable pub new : Config → CertsuiteReport
new config = record {
  verdict = "";
  ocp_version = config.ocp_version;
  cnf_cert_suite_version = config.cnf_cert_suite_version;
  cnf_targets = config.cnf;
  summary = no_tests;
  results = [];
}

-- The counters after one test case: the `switch` on its state, and `totalTests++`.
unfoldable pub count_state : String → CertsuiteReportStatusSummary → CertsuiteReportStatusSummary
count_state state s =
    let t = record s { total = s.total + 1 } in
    if str_eq state status_state_passed
    then record t { passed = s.passed + 1 }
    else if str_eq state status_state_skipped
    then record t { skipped = s.skipped + 1 }
    else if str_eq state status_state_failed
    then record t { failed = s.failed + 1 }
    else if str_eq state status_state_error
    then record t { errored = s.errored + 1 }
    else t

-- What the `switch` writes to the result of one test case.
unfoldable pub describe : String → Claim.TestCaseResult → TestCaseResult
describe tc_name tc =
    let r : TestCaseResult = record {
      test_case_name = tc_name;
      description = tc.catalog_info.description;
      result = tc.state;
      reason = "";
      remediation = "";
      logs = "";
      target_resources = none;
    } in
    if str_eq tc.state status_state_passed
    then r
    else if str_eq tc.state status_state_skipped
    then record r { reason = tc.skip_reason }
    else if str_eq tc.state status_state_failed
    then record r {
      reason = tc.failure_reason;
      logs = tc.captured_test_output;
      remediation = tc.catalog_info.remediation;
    }
    else r

-- The test before the targets are set.
unfoldable pub shows_targets : CertsuiteRunSpec → String → Bool
shows_targets spec state =
    str_eq state status_state_failed
    || (str_eq state status_state_passed && spec.show_compliant_resources_always)

unfoldable pub verdict : CertsuiteReportStatusSummary → String
verdict s =
    if leb 1 s.errored
    then status_verdict_error
    else if leb 1 s.failed
    then status_verdict_fail
    else if s.skipped == s.total
    then status_verdict_skip
    else status_verdict_pass

-- What is written when the details have been decoded.
unfoldable pub set_decoded_targets : Option CheckDetails → TestCaseResult → Result TestCaseResult
unfolding get_target_resources_from_claim
set_decoded_targets none r = ok r
set_decoded_targets (some check_details) r = do
  compliant ← get_target_resources_from_claim check_details.compliant
  non_compliant ← get_target_resources_from_claim check_details.non_compliant
  ok (record r {
    target_resources = some (record { compliant = compliant; non_compliant = non_compliant });
  })

module _ (unmarshal : String → Option CheckDetails) where
  unfoldable pub set_test_case_targets : String → TestCaseResult → Result TestCaseResult
  unfolding set_decoded_targets
  set_test_case_targets check_details_str r =
      if str_eq check_details_str ""
      then ok r
      else set_decoded_targets (unmarshal check_details_str) r

  -- The body of the loop, for one entry of the results.
  unfoldable pub test_case_result :
      CertsuiteRunSpec → String → Claim.TestCaseResult → Result TestCaseResult
  unfolding describe shows_targets set_test_case_targets
  test_case_result spec tc_name tc = do
    r ←
        (let r = describe tc_name tc in
          if shows_targets spec tc.state then set_test_case_targets tc.check_details r else ok r)
    ok (if spec.show_all_results_logs then record r { logs = tc.captured_test_output } else r)

  -- The loop over the results, with its counters and the results so far.
  unfoldable pub collect :
      CertsuiteRunSpec
      → Claim.TestSuiteResults
      → CertsuiteReportStatusSummary
      → List TestCaseResult
      → Result (CertsuiteReportStatusSummary × List TestCaseResult)
  unfolding test_case_result count_state
  collect spec [] summary results = ok (summary, results)
  collect spec ((tc_name, tc) ∷ rest) summary results = do
    r ← test_case_result spec tc_name tc
    collect spec rest (count_state tc.state summary) (results ++ r ∷ [])

  unfoldable pub set_run_cr_status : CertsuiteRun → Schema → Result CertsuiteRun
  unfolding collect verdict get_cnf_targets_from_claim
  set_run_cr_status run_cr claim_schema = do
    (summary, results) ← collect run_cr.spec claim_schema.results no_tests []
    ok (record run_cr {
      status = record run_cr.status {
        report = some (record {
          verdict = verdict summary;
          ocp_version = claim_schema.versions.ocp;
          cnf_cert_suite_version = claim_schema.versions.tnf;
          cnf_targets = get_cnf_targets_from_claim claim_schema;
          summary = summary;
          results = results;
        });
      };
    })
