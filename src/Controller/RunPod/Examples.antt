-- ===== src/Controller/RunPod/Examples.antt =====
-- The pod of a run with a preflight secret and a labels filter that looks like a flag.
use cnf_certsuite_operator.Prelude.{◌≡◌, true, false, none, some}
use cnf_certsuite_operator.Go.{ok}
use cnf_certsuite_operator.Pod.{Pod}
use cnf_certsuite_operator.Api.{CertsuiteRun}
use cnf_certsuite_operator.Job.{new}
use cnf_certsuite_operator.Controller.RunPod.{job_options}
use cnf_certsuite_operator.Controller.RunPod.Launch.{Launches, new-job_options}

abbrev pub sample_run : CertsuiteRun
sample_run = record {
  kind = "CertsuiteRun";
  api_version = "best-practices-for-k8s.openshift.io/v1alpha1";
  name = "certsuiterun-sample";
  namespace = "certsuite-operator";
  uid = "u1";
  spec = record {
    labels_filter = "--timeout";
    log_level = "info";
    time_out = "2h";
    config_map_name = "certsuite-configmap";
    preflight_secret_name = some "certsuite-preflight-dockerconfig";
    enable_data_collection = false;
    show_all_results_logs = true;
    show_compliant_resources_always = false;
  };
  status = record { phase = ""; cnf_cert_suite_pod_name = none; report = none };
}

new-job_options_example :
    (p : Pod) × (new (job_options "sidecar" "certsuite-job-run-1" "certsuite-operator" sample_run)
      ≡ ok p)
    × Launches "sidecar" "certsuite-job-run-1" "certsuite-operator" sample_run p
new-job_options_example =
    new-job_options "sidecar" "certsuite-job-run-1" "certsuite-operator" sample_run
