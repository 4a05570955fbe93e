-- ===== src/Controller/RunPod.antt =====
-- The options with which the reconciler of internal/controller/certsuiterun_controller.go builds
-- the pod of a run, and what the pod looks like.
pub mod Launch
pub mod Examples
use cnf_certsuite_operator.Prelude.{String, Bool, true, false, List, [], ◌∷◌}
use cnf_certsuite_operator.Api.{CertsuiteRun}
use cnf_certsuite_operator.Job.{PodOption}
use cnf_certsuite_operator.Job.Options.{
  with_pod_name, with_namespace, with_cert_suite_config_run_name, with_labels_filter,
  with_log_level, with_time_out, with_config_map, with_preflight_secret, with_side_car_app,
  with_enable_data_collection, with_owner_reference,
}

-- strconv.FormatBool
abbrev pub format_bool : Bool → String
format_bool true = "true"
format_bool false = "false"

unfoldable pub job_options : String → String → String → CertsuiteRun → List PodOption
job_options side_car_image cert_suite_pod_name req_namespace run_cr =
    with_pod_name cert_suite_pod_name
    ∷ with_namespace req_namespace
    ∷ with_cert_suite_config_run_name run_cr.name
    ∷ with_labels_filter run_cr.spec.labels_filter
    ∷ with_log_level run_cr.spec.log_level
    ∷ with_time_out run_cr.spec.time_out
    ∷ with_config_map run_cr.spec.config_map_name
    ∷ with_preflight_secret run_cr.spec.preflight_secret_name
    ∷ with_side_car_app side_car_image
    ∷ with_enable_data_collection (format_bool run_cr.spec.enable_data_collection)
    ∷ with_owner_reference run_cr.uid run_cr.name run_cr.kind run_cr.api_version
    ∷ []
