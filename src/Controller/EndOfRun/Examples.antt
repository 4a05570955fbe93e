-- ===== src/Controller/EndOfRun/Examples.antt =====
-- The end of a run in a cluster in memory whose pod has two containers.
use cnf_certsuite_operator.Prelude.{
  ◌<>◌, ◌↔◌, eq_iff, ℕ, ◌*◌, String, ◌≡◌, ◌≢◌, refl, true, Option, none, some, List, [], ◌∷◌, arith,
  if◌then◌else◌,
}
use cnf_certsuite_operator.Prelude.Int.{pos}
use cnf_certsuite_operator.Go.{Error, ok, err, panic, nil_dereference, api, invalid}
use cnf_certsuite_operator.Definitions.{cnf_cert_suite_container_name}
use cnf_certsuite_operator.Prelude.Decimal.{decimal}
use cnf_certsuite_operator.Duration.{second, minute, hour, parse_duration}
use cnf_certsuite_operator.Duration.Printed.{parse_duration-minutes}
use cnf_certsuite_operator.Controller.EndOfRun.Timeout.{
  get_job_run_time_threshold-decimal, is_overdue-wraps,
}
use cnf_certsuite_operator.Pod.{Pod, Container, ContainerStatus}
use cnf_certsuite_operator.Api.{NamespacedName, allowed_phases}
use cnf_certsuite_operator.Controller.RunPod.Examples.{sample_run}
use cnf_certsuite_operator.Controller.Cluster.{Cluster, Call, found}
use cnf_certsuite_operator.Controller.Memory.{Memory, memory, keep}
use cnf_certsuite_operator.Controller.State.{State}
use cnf_certsuite_operator.Controller.EndOfRun.{
  get_container_status, get_job_run_time_threshold, is_overdue, handle_end_of_cnf_cert_suite_run,
}
use cnf_certsuite_operator.Controller.EndOfRun.Placement.{
  find_named, get_container_status-Aligned, get_container_status-swapped,
}
use cnf_certsuite_operator.Controller.EndOfRun.Outcome.{
  EndsAs, writes, handle_end_of_cnf_cert_suite_run-EndsAs,
}
use cnf_certsuite_operator.Controller.EndOfRun.Panics.{
  Crashes, handle_end_of_cnf_cert_suite_run-Crashes,
}
use cnf_certsuite_operator.Controller.EndOfRun.Refused.{
  is_one_of, Validates, handle_end_of_cnf_cert_suite_run_refused,
}

abbrev no_fraction : ℕ → ℕ → ℕ → ℕ
no_fraction f unit scale = 0

abbrev container : String → Container
container name = record {
  name = name;
  image = "";
  command = [];
  args = [];
  env = [];
  image_pull_policy = "";
  volume_mounts = [];
}

abbrev side_car_running : ContainerStatus
side_car_running = record {
  name = "certsuite-sidecar";
  state = record { running = some 5; terminated = none };
}

abbrev suite_running : ContainerStatus
suite_running = record {
  name = "certsuite";
  state = record { running = some 7; terminated = none };
}

abbrev pod_with : List ContainerStatus → Pod
pod_with statuses = record {
  name = "certsuite-job-run-1";
  namespace = "certsuite-operator";
  owner_references = [];
  service_account_name = "";
  restart_policy = "";
  containers = container "certsuite-sidecar" ∷ container "certsuite" ∷ [];
  volumes = [];
  container_statuses = statuses;
}

abbrev in_order : Pod
in_order = pod_with (side_car_running ∷ suite_running ∷ [])

abbrev by_name : Pod
by_name = pod_with (suite_running ∷ side_car_running ∷ [])

get_container_status-Aligned_example :
    get_container_status in_order "certsuite"
    ≡ ok (find_named "certsuite" in_order.container_statuses)
get_container_status-Aligned_example =
    get_container_status-Aligned in_order "certsuite" (refl, (refl, tt))

get_container_status-swapped_example :
    (get_container_status by_name "certsuite" ≡ ok (some side_car_running))
    × (side_car_running.name ≢ (container "certsuite").name)
get_container_status-swapped_example =
    get_container_status-swapped by_name (container "certsuite-sidecar") (container "certsuite")
      suite_running side_car_running refl refl
      (λ q. ground (arith, eq_iff "certsuite-sidecar" "certsuite", q)) refl refl

-- Three hours after the start of a container that may run for two.
abbrev late_memory : Memory
late_memory = record {
  run = found sample_run;
  pod = found in_order;
  update_errors = [];
  create_error = none;
  delete_error = none;
  time = 3 * hour;
}

abbrev late_state : State Memory
late_state = record {
  certification_runs = [];
  cert_suite_pod_id = 1;
  side_car_image = "sidecar";
  calls = [];
  world = late_memory;
}

abbrev sample_name : NamespacedName
sample_name = record { namespace = "certsuite-operator"; name = "certsuiterun-sample" }

abbrev sample_pod_name : NamespacedName
sample_pod_name = record { namespace = "certsuite-operator"; name = "certsuite-job-run-1" }

suite_place : get_container_status in_order cnf_cert_suite_container_name ≡ ok (some suite_running)
unfolding get_container_status
suite_place = refl

two_hours : parse_duration no_fraction "2h" ≡ some (pos (2 * hour))
unfolding parse_duration
two_hours = refl

handle_end_of_cnf_cert_suite_run-EndsAs_example :
    (phase : Option String) × EndsAs (3 * hour) (2 * hour) suite_running.state phase
    × (handle_end_of_cnf_cert_suite_run memory no_fraction "certsuiterun-sample"
          "certsuite-job-run-1" "certsuite-operator" "2h" late_state
        ≡ writes memory no_fraction sample_name "2h"
            (2 * hour)
            phase
            (record late_state { calls = Call.get_pod sample_pod_name ∷ [] }))
handle_end_of_cnf_cert_suite_run-EndsAs_example =
    handle_end_of_cnf_cert_suite_run-EndsAs memory no_fraction sample_name "2h" (2 * hour)
      "certsuite-job-run-1" late_state late_memory in_order suite_running two_hours (omega arith)
      refl (refl, (refl, tt)) refl (λ e q. cc) (λ t e. ground arith)

-- An API server that enforces the enumeration of phases.
abbrev strict : Cluster
strict = record memory {
  update_run_status = λ r w.
      if is_one_of r.status.phase allowed_phases
      then keep r w.update_errors w
      else (some (api invalid "Unsupported value"), w);
}

strict-Validates : Validates strict
strict-Validates r w outside = rw outside (λ e. cc)

three_hours_overdue : is_overdue no_fraction (3 * hour) 7 "2h" ≡ true
unfolding is_overdue parse_duration
three_hours_overdue = refl

handle_end_of_cnf_cert_suite_run_refused_example :
    (e : Error) × ((handle_end_of_cnf_cert_suite_run strict no_fraction "certsuiterun-sample"
        "certsuite-job-run-1" "certsuite-operator" "2h" late_state).0
      ≡ err e)
handle_end_of_cnf_cert_suite_run_refused_example =
    handle_end_of_cnf_cert_suite_run_refused strict strict-Validates no_fraction sample_name
      "certsuite-job-run-1" "2h" late_state late_memory in_order suite_running 7 refl suite_place
      refl refl three_hours_overdue

handle_end_of_cnf_cert_suite_run-Crashes_example :
    ((handle_end_of_cnf_cert_suite_run memory no_fraction "certsuiterun-sample"
        "certsuite-job-run-1" "certsuite-operator" "2h" late_state).0
      ≡ panic nil_dereference)
    ↔ ((pod : Pod) × ((memory.get_pod sample_pod_name late_memory).0 ≡ found pod)
        × Crashes memory no_fraction nil_dereference pod)
handle_end_of_cnf_cert_suite_run-Crashes_example =
    handle_end_of_cnf_cert_suite_run-Crashes memory no_fraction nil_dereference
      "certsuiterun-sample" "certsuite-job-run-1" "certsuite-operator" "2h" late_state

get_job_run_time_threshold-decimal_example :
    (get_job_run_time_threshold no_fraction (decimal 36 <> "h") ≡ pos (36 * hour))
    × (get_job_run_time_threshold no_fraction (decimal 36 <> "m") ≡ pos (36 * minute))
    × (get_job_run_time_threshold no_fraction (decimal 36 <> "s") ≡ pos (36 * second))
get_job_run_time_threshold-decimal_example =
    get_job_run_time_threshold-decimal no_fraction 36 (omega arith)

-- The longest timeout in whole minutes: a container that has just started is overdue.
abbrev longest : ℕ
longest = 153722867

is_overdue-wraps_example : is_overdue no_fraction 1000 1000 (decimal longest <> "m") ≡ true
is_overdue-wraps_example =
    is_overdue-wraps no_fraction 1000 1000 (longest * minute) (decimal longest <> "m")
      (parse_duration-minutes no_fraction longest (omega arith)) (omega arith) (omega arith)
      (omega arith)
