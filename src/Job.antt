-- ===== src/Job.antt =====
-- internal/controller/cnf-cert-job/cnfcertjob.go: the pod of a run, built from options. A pointer
-- to a container of the pod is its index, and a write through it changes the pod's list.
pub mod Options
pub mod Outcome
mod Examples
use cnf_certsuite_operator.Prelude.{
  ℕ, suc, String, Option, none, some, List, [], ◌∷◌, true, false, str_eq, if◌then◌else◌,
}
use cnf_certsuite_operator.Go.{Result, ok, ◌>>=◌}
use cnf_certsuite_operator.Definitions.{
  cnf_cert_suite_sidecar_container_name, cnf_cert_suite_container_name,
  cnf_cnf_cert_suite_config_folder, cnf_cert_suite_results_folder, cnf_cert_suite_config_file_path,
  preflight_docker_config_file_path, side_car_results_folder_env_var,
}
use cnf_certsuite_operator.Pod.{Pod, Container, empty_dir}

abbrev pub cluster_access_service_account_name : String
cluster_access_service_account_name = "certsuite-cluster-access"

abbrev pub certsuite_container_image : String
certsuite_container_image = "quay.io/redhat-best-practices-for-k8s/certsuite:unstable"

-- The sidecar's container of the initial pod.
abbrev pub initial_side_car : Container
initial_side_car = record {
  name = cnf_cert_suite_sidecar_container_name;
  image = "";
  command = [];
  args = [];
  env =
      record { name = "MY_POD_NAME"; value = ""; field_path = some "metadata.name" }
      ∷ record { name = "MY_POD_NAMESPACE"; value = ""; field_path = some "metadata.namespace" }
      ∷ record {
        name = side_car_results_folder_env_var;
        value = cnf_cert_suite_results_folder;
        field_path = none;
      }
      ∷ [];
  image_pull_policy = "IfNotPresent";
  volume_mounts =
      record {
        name = "certsuite-output";
        read_only = true;
        mount_path = cnf_cert_suite_results_folder;
      }
      ∷ [];
}

-- The suite's container of the initial pod.
abbrev pub initial_cert_suite : Container
initial_cert_suite = record {
  name = cnf_cert_suite_container_name;
  image = certsuite_container_image;
  command = "certsuite" ∷ [];
  args =
      "run" ∷ "--output-dir" ∷ cnf_cert_suite_results_folder ∷ "--config-file"
      ∷ cnf_cert_suite_config_file_path ∷ "--preflight-dockerconfig"
      ∷ preflight_docker_config_file_path ∷ "--intrusive" ∷ "false" ∷ [];
  env = [];
  image_pull_policy = "Always";
  volume_mounts =
      record {
        name = "certsuite-output";
        read_only = false;
        mount_path = cnf_cert_suite_results_folder;
      }
      ∷ record {
        name = "certsuite-config";
        read_only = true;
        mount_path = cnf_cnf_cert_suite_config_folder;
      }
      ∷ [];
}

unfoldable pub new_initial_job_pod : Pod
new_initial_job_pod = record {
  name = "";
  namespace = "";
  owner_references = [];
  service_account_name = cluster_access_service_account_name;
  restart_policy = "Never";
  containers = initial_side_car ∷ initial_cert_suite ∷ [];
  volumes = record { name = "certsuite-output"; source = empty_dir } ∷ [];
  container_statuses = [];
}

-- A functional option: `func(*corev1.Pod) error`. A pod that an option has failed on is dropped.
abbrev pub PodOption : Type 0
PodOption = Pod → Result Pod

-- The loop of `New`.
unfoldable pub apply_options : List PodOption → Pod → Result Pod
apply_options [] p = ok p
apply_options (o ∷ options) p = o p >>= apply_options options

unfoldable pub new : List PodOption → Result Pod
unfolding apply_options new_initial_job_pod
new options = apply_options options new_initial_job_pod

-- The index of the first container with this name.
unfoldable pub container_index : String → List Container → Option ℕ
container_index name [] = none
container_index name (c ∷ cs) =
    if str_eq c.name name
    then some 0
    else elim (container_index name cs) [ none ↦ none | some i ↦ some (suc i) ]

unfoldable pub get_side_car_app_container : Pod → Option ℕ
unfolding container_index
get_side_car_app_container p = container_index cnf_cert_suite_sidecar_container_name p.containers

unfoldable pub get_cnf_cert_suite_container : Pod → Option ℕ
unfolding container_index
get_cnf_cert_suite_container p = container_index cnf_cert_suite_container_name p.containers
