-- ===== src/Report/Examples.antt =====
-- A claim with a passed, a failed and a skipped test case.
use mathlib.Core.List.{Forall₂, Permᴰ}
use cnf_certsuite_operator.Prelude.{
  String, ◌≡◌, refl, false, Option, none, some, List, [], ◌∷◌, str_eq, if◌then◌else◌,
}
use cnf_certsuite_operator.Prelude.Dict.{Dict}
use cnf_certsuite_operator.Go.{ok}
use cnf_certsuite_operator.Claim
use cnf_certsuite_operator.Claim.{Schema, Value, str, list, nil, cons}
use cnf_certsuite_operator.Api.{CertsuiteRun, CertsuiteReport}
use cnf_certsuite_operator.Report.{set_run_cr_status}
use cnf_certsuite_operator.Report.Details.{CheckDetails, get_target_resources_from_claim}
use cnf_certsuite_operator.Report.Fields.{Shows, get_target_resources_from_claim-Shows}
use cnf_certsuite_operator.Report.Targets.{get_cnf_targets_from_claim, no_targets}
use cnf_certsuite_operator.Report.Exact.{get_cnf_targets_from_claim-map}
use cnf_certsuite_operator.Report.Summary.{tally, verdict_of, set_run_cr_status-tally}
use cnf_certsuite_operator.Report.Malformed.{
  ReturnsIff, all_reportable, set_run_cr_status-ReturnsIff,
}
use cnf_certsuite_operator.Report.Results.{Describes, set_run_cr_status-Describes}
use cnf_certsuite_operator.Report.Order.{set_run_cr_status-perm}

-- A decoder that knows one text.
abbrev pub decode : String → Option CheckDetails
decode s =
    if str_eq s "one object"
    then some (record {
      compliant = [];
      non_compliant =
          (("ObjectFieldsKeys", list (cons (str "Pod Name") nil))
            ∷ ("ObjectFieldsValues", list (cons (str "web-1") nil))
            ∷ [])
          ∷ [];
    })
    else none

abbrev pub test_case : String → String → Claim.TestCaseResult
test_case state details = record {
  captured_test_output = "log";
  catalog_info = record { description = "d"; remediation = "fix it" };
  check_details = details;
  failure_reason = "broken";
  skip_reason = "no pods";
  state = state;
}

abbrev pub claim_of : Claim.TestSuiteResults → Schema
claim_of results = record {
  configurations = record {
    name_spaces = "cnf" ∷ [];
    pods = [];
    deployments = [];
    stateful_sets = [];
    csvs = [];
    crds = [];
    services = [];
    helm_chart_releases = [];
  };
  nodes = record { node_summary = [] };
  results = results;
  versions = record { ocp = "4.14"; tnf = "v5" };
}

abbrev pub a_run : CertsuiteRun
a_run = record {
  kind = "";
  api_version = "";
  name = "run";
  namespace = "ns";
  uid = "";
  spec = record {
    labels_filter = "all";
    log_level = "info";
    time_out = "1h";
    config_map_name = "cm";
    preflight_secret_name = none;
    enable_data_collection = false;
    show_all_results_logs = false;
    show_compliant_resources_always = false;
  };
  status = record { phase = "CertSuiteRunning"; cnf_cert_suite_pod_name = some "p"; report = none };
}

abbrev pub three : Claim.TestSuiteResults
three =
    ("a", test_case "passed" "")
    ∷ ("b", test_case "failed" "one object")
    ∷ ("c", test_case "skipped" "")
    ∷ []

abbrev pub three_claim : Schema
three_claim = claim_of three

abbrev turned : Claim.TestSuiteResults
turned =
    ("b", test_case "failed" "one object")
    ∷ ("a", test_case "passed" "")
    ∷ ("c", test_case "skipped" "")
    ∷ []

three_returns : (r : CertsuiteRun) × (set_run_cr_status decode a_run three_claim ≡ ok r)
unfolding set_run_cr_status
three_returns = (_, refl)

set_run_cr_status-tally_example :
    (report : CertsuiteReport) × (three_returns.0
      ≡ record a_run { status = record a_run.status { report = some report } })
    × (report.summary ≡ tally three)
    × (report.verdict ≡ verdict_of three)
set_run_cr_status-tally_example = set_run_cr_status-tally decode a_run three_claim three_returns.1

set_run_cr_status-Describes_example :
    (report : CertsuiteReport) × (three_returns.0.status.report ≡ some report)
    × Forall₂ (Describes a_run.spec) three report.results
set_run_cr_status-Describes_example =
    set_run_cr_status-Describes decode a_run three_claim three_returns.1

set_run_cr_status-ReturnsIff_example :
    ReturnsIff (all_reportable decode a_run.spec three) (set_run_cr_status decode a_run three_claim)
set_run_cr_status-ReturnsIff_example = set_run_cr_status-ReturnsIff decode a_run three_claim

turn : Permᴰ three turned
turn = Permᴰ.swap refl refl

set_run_cr_status-perm_example :
    (report : CertsuiteReport) × (report' : CertsuiteReport) × (three_returns.0
      ≡ record a_run { status = record a_run.status { report = some report } })
    × (set_run_cr_status decode a_run (claim_of turned)
        ≡ ok (record a_run { status = record a_run.status { report = some report' } }))
    × (report' ≡ record report { results = report'.results })
    × Permᴰ report.results report'.results
set_run_cr_status-perm_example =
    set_run_cr_status-perm decode a_run three_claim turn three_returns.1

get_cnf_targets_from_claim-map_example :
    get_cnf_targets_from_claim three_claim ≡ record no_targets { namespaces = "cnf" ∷ [] }
get_cnf_targets_from_claim-map_example = get_cnf_targets_from_claim-map three_claim

-- An object that has a key twice.
abbrev twice : List (Dict String Value)
twice =
    (("ObjectFieldsKeys", list (cons (str "Pod Name") (cons (str "Pod Name") nil)))
      ∷ ("ObjectFieldsValues", list (cons (str "web-1") (cons (str "web-2") nil)))
      ∷ [])
    ∷ []

twice_read : get_target_resources_from_claim twice ≡ ok ((("Pod Name", "web-2") ∷ []) ∷ [])
unfolding get_target_resources_from_claim
twice_read = refl

get_target_resources_from_claim-Shows_example :
    Forall₂ Shows twice ((("Pod Name", "web-2") ∷ []) ∷ [])
get_target_resources_from_claim-Shows_example =
    get_target_resources_from_claim-Shows twice twice_read
