-- ===== src/Controller/Examples.antt =====
-- Requests for two new runs, one after the other, in a cluster in memory.
use cnf_certsuite_operator.Prelude.{
  All, inl, ℕ, ◌≡◌, refl, Option, none, some, List, [], ◌∷◌, ◌++◌, arith,
}
use cnf_certsuite_operator.Prelude.Dict.{lookup}
use cnf_certsuite_operator.Api.{NamespacedName, CertsuiteRunStatus}
use cnf_certsuite_operator.Go.{Error, ok, api, not_found, conflict}
use cnf_certsuite_operator.Prelude.Decimal.{decimal}
use cnf_certsuite_operator.Job.Options.{
  with_pod_name, with_namespace, with_cert_suite_config_run_name, with_labels_filter,
  with_log_level, with_time_out, with_config_map, with_preflight_secret, with_side_car_app,
  with_enable_data_collection, with_owner_reference,
}
use cnf_certsuite_operator.Controller.RunPod.Examples.{sample_run}
use cnf_certsuite_operator.Controller.Cluster.{Call, found, failure}
use cnf_certsuite_operator.Controller.Status.{update_status}
use cnf_certsuite_operator.Controller.Tried.{Tries, update_status-Tries}
use cnf_certsuite_operator.Controller.Memory.{Memory, memory}
use cnf_certsuite_operator.Controller.State.{
  setup_with_manager, initial_state, State, NamespacedName_eq, ◌>>=◌,
}
use cnf_certsuite_operator.Controller.Reconcile.{reconcile}
use cnf_certsuite_operator.Controller.Frame.{view, created}
use cnf_certsuite_operator.Controller.Registry.{Change, reconcile-Change}
use cnf_certsuite_operator.Controller.Ledger.{Kept, Implements, Reach-Kept}
use cnf_certsuite_operator.Controller.Ledger.Abstract.{Ledger}
use cnf_certsuite_operator.Controller.Names.{Distinct, pod_names}
use cnf_certsuite_operator.Controller.Updates.{Update, updates}
use cnf_certsuite_operator.Controller.Writes.{Reach-Update}
use cnf_certsuite_operator.Controller.Returns.{Returned, reconcile-Returned}
use cnf_certsuite_operator.Controller.Reached.{
  Reach, start, request, elsewhere, Reach-own_name, Reach-Distinct,
}

abbrev no_fraction : ℕ → ℕ → ℕ → ℕ
no_fraction f unit scale = 0

abbrev first_name : NamespacedName
first_name = record { namespace = "certsuite-operator"; name = "certsuiterun-sample" }

abbrev second_name : NamespacedName
second_name = record { namespace = "certsuite-operator"; name = "another" }

abbrev fresh_memory : Memory
fresh_memory = record {
  run = found sample_run;
  pod = failure (api not_found "pods not found");
  update_errors = [];
  create_error = none;
  delete_error = none;
  time = 0;
}

abbrev first_state : State Memory
first_state = (setup_with_manager (some "sidecar") none (initial_state fresh_memory)).1

abbrev second_state : State Memory
second_state = record ((reconcile memory no_fraction first_name first_state).1) {
  world = fresh_memory;
}

abbrev third_state : State Memory
third_state = (reconcile memory no_fraction second_name second_state).1

third_state-Reach : Reach memory no_fraction 2 third_state
third_state-Reach =
    request second_name (elsewhere fresh_memory (request first_name (start "sidecar" fresh_memory)))

first_pod : lookup first_name third_state.certification_runs ≡ some "certsuite-job-run-1"
unfolding setup_with_manager reconcile lookup ◌>>=◌ decimal with_pod_name with_namespace
    with_cert_suite_config_run_name with_labels_filter with_log_level with_time_out with_config_map
    with_preflight_secret with_side_car_app with_enable_data_collection with_owner_reference
first_pod = refl

reconcile-Change_example :
    Change second_name (view second_state) (found sample_run) (view third_state)
reconcile-Change_example = reconcile-Change memory no_fraction second_name second_state

Reach-own_name_example : first_name ≡ first_name
Reach-own_name_example =
    Reach-own_name memory no_fraction third_state-Reach (omega arith) first_name first_name
      "certsuite-job-run-1" first_pod first_pod

Reach-Distinct_example : Distinct (pod_names (created third_state.calls))
Reach-Distinct_example = Reach-Distinct memory no_fraction third_state-Reach (omega arith)

Reach-Update_example : All (Update memory) (updates third_state.calls)
Reach-Update_example = Reach-Update memory no_fraction third_state-Reach

first_read : memory.get_run first_name first_state.world ≡ (found sample_run, fresh_memory)
unfolding setup_with_manager
first_read = refl

reconcile-Returned_example : Returned (reconcile memory no_fraction first_name first_state).0
reconcile-Returned_example =
    reconcile-Returned memory no_fraction first_name first_state fresh_memory sample_run first_read
      (inl refl)

Reach-Kept_example : (b : Ledger) × Kept third_state-Reach b × Implements 2 b (view third_state)
Reach-Kept_example = Reach-Kept memory no_fraction third_state-Reach (omega arith)

abbrev finished : CertsuiteRunStatus → CertsuiteRunStatus
finished status = record status { phase = "CertSuiteFinished" }

-- A state in which the first update meets a conflict.
abbrev contended : State Memory
contended = record first_state {
  world = record fresh_memory { update_errors = some (api conflict "modified") ∷ [] };
}

update_status-Tries_example :
    (e : Option Error) × (cs : List Call) × (w : Memory) × (update_status memory first_name finished
        contended
      ≡ (ok e, record contended { calls = contended.calls ++ cs; world = w }))
    × Tries memory first_name finished contended.world cs e w
update_status-Tries_example = update_status-Tries memory first_name finished contended
