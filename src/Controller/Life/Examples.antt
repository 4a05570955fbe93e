-- ===== src/Controller/Life/Examples.antt =====
-- A run in a cluster in memory, from its new resource to its report.
use cnf_certsuite_operator.Prelude.{◌++◌, ℕ, String, ◌≡◌, refl, none, some, inl, [], ◌∷◌}
use cnf_certsuite_operator.Prelude.Int.{pos}
use cnf_certsuite_operator.Prelude.Decimal.{decimal}
use cnf_certsuite_operator.Prelude.Dict.{lookup}
use cnf_certsuite_operator.Go.{ok, api, not_found}
use cnf_certsuite_operator.Controller.Cluster.{failure}
use cnf_certsuite_operator.Controller.Frame.{view}
use cnf_certsuite_operator.Pod.{Pod, Container, ContainerStatus}
use cnf_certsuite_operator.Api.{NamespacedName, CertsuiteRun}
use cnf_certsuite_operator.Report.{set_run_cr_status}
use cnf_certsuite_operator.Report.Examples.{decode, three_claim}
use cnf_certsuite_operator.Controller.RunPod.Examples.{sample_run}
use cnf_certsuite_operator.Controller.State.{State, initial_state, NamespacedName_eq}
use cnf_certsuite_operator.Controller.Reconcile.{pod_name_of, reconcile}
use cnf_certsuite_operator.Controller.Life.{name_of}
use cnf_certsuite_operator.Controller.Life.Memory.{Objects, objects, object_store}
use cnf_certsuite_operator.Controller.Life.Started.{Started, running, reconcile-Started}
use cnf_certsuite_operator.Controller.Life.Ended.{in_phase}
use cnf_certsuite_operator.Controller.Life.Restart.{next_pod, reconcile-clash}
use cnf_certsuite_operator.Controller.Life.Whole.{Lived, reconcile-Lived}

abbrev pub no_fraction : ℕ → ℕ → ℕ → ℕ
no_fraction f unit scale = 0

abbrev pub req : NamespacedName
req = name_of sample_run

abbrev pub new_run : State Objects
new_run = record (initial_state (record { runs = (req, sample_run) ∷ []; pods = [] })) {
  side_car_image = "sidecar";
}

abbrev pub first_pod : String
first_pod = pod_name_of 1

abbrev pub after_start : State Objects
after_start = (reconcile objects no_fraction req new_run).1

pub new_run_there : object_store.run_of req new_run.world ≡ some sample_run
unfolding lookup
new_run_there = refl

pub new_pod_free :
    object_store.pod_of (record { namespace = req.namespace; name = first_pod }) new_run.world
    ≡ none
unfolding lookup
new_pod_free = refl

new_run-Started :
    Started objects object_store no_fraction req sample_run "sidecar" first_pod
      (reconcile objects no_fraction req new_run)
new_run-Started =
    reconcile-Started objects object_store no_fraction req sample_run new_run new_run_there refl
      (inl refl) new_pod_free

-- The suite has ended with exit code 0, and the sidecar runs on.
abbrev container : String → Container
container name = record {
  name = name;
  image = "";
  command = [];
  args = [];
  env = [];
  image_pull_policy = "";
  volume_mounts = [];
}

abbrev suite_status : ContainerStatus
suite_status = record {
  name = "certsuite";
  state = record { running = none; terminated = some (pos 0) };
}

abbrev side_car_status : ContainerStatus
side_car_status = record {
  name = "certsuite-sidecar";
  state = record { running = some 0; terminated = none };
}

abbrev ended_pod : Pod
ended_pod = record {
  name = first_pod;
  namespace = req.namespace;
  owner_references = [];
  service_account_name = "";
  restart_policy = "Never";
  containers = container "certsuite-sidecar" ∷ container "certsuite" ∷ [];
  volumes = [];
  container_statuses = side_car_status ∷ suite_status ∷ [];
}

abbrev run_with_pod : CertsuiteRun
run_with_pod = running sample_run first_pod

reported_run : (r : CertsuiteRun) × (set_run_cr_status decode run_with_pod three_claim ≡ ok r)
unfolding set_run_cr_status
reported_run = (_, refl)

abbrev at_end : Objects
at_end = record {
  runs = (req, reported_run.0) ∷ [];
  pods = (record { namespace = req.namespace; name = first_pod }, ended_pod) ∷ [];
}

run_at_end : object_store.run_of req at_end ≡ some reported_run.0
unfolding lookup
run_at_end = refl

pod_at_end :
    object_store.pod_of (record { namespace = req.namespace; name = first_pod }) at_end
    ≡ some ended_pod
unfolding lookup pod_name_of decimal
pod_at_end = refl

reconcile-Lived_example :
    Started objects object_store no_fraction req sample_run "sidecar" first_pod
      (reconcile objects no_fraction req new_run)
    × ((reconcile objects no_fraction req (record after_start { world = at_end })).0
        ≡ ok (record { requeue_after = 0 }))
    × Lived objects object_store no_fraction req sample_run first_pod three_claim
        (pos 0)
        (reconcile objects no_fraction req (record after_start { world = at_end })).1.world
reconcile-Lived_example =
    reconcile-Lived objects object_store no_fraction req sample_run run_with_pod reported_run.0
      decode three_claim ended_pod suite_status (pos 0) new_run at_end new_run_there refl (inl refl)
      new_pod_free new_run-Started.run_is reported_run.1 run_at_end pod_at_end (refl, (refl, tt))
      refl refl

-- The operator has been restarted: a pod of an earlier run has the first name.
abbrev restarted : State Objects
restarted =
    record (initial_state (record {
      runs = (req, sample_run) ∷ [];
      pods = (record { namespace = req.namespace; name = first_pod }, ended_pod) ∷ [];
    })) { side_car_image = "sidecar" }

abbrev pub emptied : Objects
emptied = record { runs = []; pods = [] }

restarted_there : object_store.run_of req restarted.world ≡ some sample_run
unfolding lookup
restarted_there = refl

restarted_taken :
    object_store.pod_of (next_pod objects object_store no_fraction req restarted) restarted.world
    ≡ some ended_pod
unfolding lookup pod_name_of decimal
restarted_taken = refl

pub emptied_gone : (objects.get_run req emptied).0 ≡ failure (api not_found "not found")
unfolding lookup
emptied_gone = refl

reconcile-clash_example :
    let first = reconcile objects no_fraction req restarted in
    let later = reconcile objects no_fraction req (record first.1 { world = emptied }) in
    (first.0 ≡ ok (record { requeue_after = 0 }))
    × (object_store.run_of req first.1.world ≡ some (in_phase "CertSuiteDeploying" sample_run))
    × (object_store.pod_of (next_pod objects object_store no_fraction req restarted) first.1.world
        ≡ some ended_pod)
    × ((view later.1).names
        ≡ (view first.1).names ++ next_pod objects object_store no_fraction req restarted ∷ [])
reconcile-clash_example =
    reconcile-clash objects object_store no_fraction req sample_run ended_pod restarted emptied
      (api not_found "not found") restarted_there refl (inl refl) restarted_taken emptied_gone
