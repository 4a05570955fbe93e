-- ===== src/Job/Examples.antt =====
-- Pods that are built by the options of cnfcertjob.go.
use cnf_certsuite_operator.Prelude.{◌≡◌, some, List, [], ◌∷◌}
use cnf_certsuite_operator.Go.{ok}
use cnf_certsuite_operator.Pod.{Pod}
use cnf_certsuite_operator.Job.{PodOption, new}
use cnf_certsuite_operator.Job.Options.{
  with_pod_name, with_labels_filter, with_preflight_secret, pod_name, labels_filter,
  preflight_secret,
}
use cnf_certsuite_operator.Job.Outcome.{IsComplete, new-total}

abbrev some_options : List PodOption
some_options =
    with_preflight_secret (some "dockerconfig")
    ∷ with_pod_name "certsuite-job-run-1"
    ∷ with_labels_filter "all"
    ∷ []

new-total_example : (p : Pod) × (new some_options ≡ ok p) × IsComplete p
new-total_example = new-total some_options (
  preflight_secret (some "dockerconfig"),
  (pod_name "certsuite-job-run-1", (labels_filter "all", tt)),
)
