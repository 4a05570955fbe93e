-- ===== src/Definitions.antt =====
-- internal/controller/definitions/definitions.go: the names that the parts of the operator share.
use cnf_certsuite_operator.Prelude.{String, ◌<>◌}

abbrev pub certsuite_run_status_phase_job_finished : String
certsuite_run_status_phase_job_finished = "CertSuiteFinished"

abbrev pub certsuite_run_status_phase_job_error : String
certsuite_run_status_phase_job_error = "CertSuiteError"

abbrev pub certsuite_run_status_phase_job_timeout : String
certsuite_run_status_phase_job_timeout = "CertSuiteTimeout"

abbrev pub cnf_cert_pod_name_prefix : String
cnf_cert_pod_name_prefix = "certsuite-job-run"

abbrev pub cnf_cert_suite_sidecar_container_name : String
cnf_cert_suite_sidecar_container_name = "certsuite-sidecar"

abbrev pub cnf_cert_suite_container_name : String
cnf_cert_suite_container_name = "certsuite"

abbrev pub cnf_cert_suite_base_folder : String
cnf_cert_suite_base_folder = "/certsuite"

abbrev pub cnf_cnf_cert_suite_config_folder : String
cnf_cnf_cert_suite_config_folder = cnf_cert_suite_base_folder <> "/config/suite"

abbrev pub cnf_preflight_config_folder : String
cnf_preflight_config_folder = cnf_cert_suite_base_folder <> "/config/preflight"

abbrev pub cnf_cert_suite_results_folder : String
cnf_cert_suite_results_folder = cnf_cert_suite_base_folder <> "/results"

abbrev pub cnf_cert_suite_config_file_path : String
cnf_cert_suite_config_file_path = cnf_cnf_cert_suite_config_folder <> "/tnf_config.yaml"

abbrev pub preflight_docker_config_file_path : String
preflight_docker_config_file_path = cnf_preflight_config_folder <> "/preflight_dockerconfig.json"

abbrev pub side_car_results_folder_env_var : String
side_car_results_folder_env_var = "TNF_RESULTS_FOLDER"

abbrev pub side_car_image_env_var : String
side_car_image_env_var = "SIDECAR_APP_IMG"

abbrev pub controller_namespace_env_var : String
controller_namespace_env_var = "CONTROLLER_NS"
