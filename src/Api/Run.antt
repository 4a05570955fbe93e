-- ===== src/Api/Run.antt =====
-- The CertsuiteRun resource of api/v1alpha1/certsuiterun_types.go. Of its metadata the fields that
-- the program reads are kept.
use cnf_certsuite_operator.Prelude.{String, Bool, Option, List, [], ◌∷◌}
use cnf_certsuite_operator.Api.Report.{CertsuiteReport}

-- types.NamespacedName
pub record NamespacedName : Type 0 where
  pub namespace : String
  pub name : String

pub record CertsuiteRunSpec : Type 0 where
  pub labels_filter : String
  pub log_level : String
  pub time_out : String
  pub config_map_name : String
  pub preflight_secret_name : Option String
  pub enable_data_collection : Bool
  pub show_all_results_logs : Bool
  pub show_compliant_resources_always : Bool

abbrev pub status_phase_cert_suite_deploying : String
status_phase_cert_suite_deploying = "CertSuiteDeploying"

abbrev pub status_phase_cert_suite_deploy_error : String
status_phase_cert_suite_deploy_error = "CertSuiteDeployError"

abbrev pub status_phase_cert_suite_running : String
status_phase_cert_suite_running = "CertSuiteRunning"

-- The `kubebuilder:validation:Enum` of the field Phase, which the custom resource definition has.
abbrev pub allowed_phases : List String
allowed_phases =
    "CertSuiteDeploying" ∷ "CertSuiteDeployFailure" ∷ "CertSuiteRunning" ∷ "CertSuiteFinished"
    ∷ "CertSuiteError" ∷ []

pub record CertsuiteRunStatus : Type 0 where
  pub phase : String
  pub cnf_cert_suite_pod_name : Option String
  pub report : Option CertsuiteReport

pub record CertsuiteRun : Type 0 where
  pub kind : String
  pub api_version : String
  pub name : String
  pub namespace : String
  pub uid : String
  pub spec : CertsuiteRunSpec
  pub status : CertsuiteRunStatus
