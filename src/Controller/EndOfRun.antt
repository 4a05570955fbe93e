-- ===== src/Controller/EndOfRun.antt =====
-- The end of a run, of internal/controller/certsuiterun_controller.go: the state of the suite's
-- container decides the phase.
pub mod Placement
pub mod Outcome
pub mod Refused
pub mod Search
pub mod Panics
pub mod Timeout
mod Examples
use cnf_certsuite_operator.Prelude.{
  ℕ, zero, ◌*◌, String, ◌<>◌, Bool, Option, none, some, List, [], ◌∷◌, str_eq, if◌then◌else◌,
}
use cnf_certsuite_operator.Prelude.Int.{ℤ, pos, ◌+ℤ◌, wrap_int64, ltb_ℤ}
use cnf_certsuite_operator.Go.{
  Result, ok, panic, errorf, error_text, nil_dereference, index_out_of_range,
}
use cnf_certsuite_operator.Definitions.{
  cnf_cert_suite_container_name, certsuite_run_status_phase_job_finished,
  certsuite_run_status_phase_job_error, certsuite_run_status_phase_job_timeout,
}
use cnf_certsuite_operator.Duration.{second, minute, hour, parse_duration, sub_time}
use cnf_certsuite_operator.Pod.{Pod, Container, ContainerState, ContainerStatus}
use cnf_certsuite_operator.Api.{NamespacedName}
use cnf_certsuite_operator.Controller.Cluster.{Cluster, found, failure}
use cnf_certsuite_operator.Controller.State.{M, ◌>>=◌, return, fail, lift, get_pod, now}
use cnf_certsuite_operator.Controller.Status.{update_status_phase}

-- ctrl.Result: the delay after which the request comes back, or 0.
pub record CtrlResult : Type 0 where
  pub requeue_after : ℕ

abbrev pub done : CtrlResult
done = record { requeue_after = 0 }

abbrev pub check_interval : ℕ
check_interval = 10 * second

abbrev pub default_cert_suite_timeout : ℕ
default_cert_suite_timeout = hour

abbrev pub cert_suite_timeout_safe_guard : ℕ
cert_suite_timeout_safe_guard = 2 * minute

-- NamespacedName.String()
abbrev pub show_name : NamespacedName → String
show_name n = n.namespace <> ("/" <> n.name)

-- The status at the place at which the pod's specification has the container.
unfoldable pub status_of :
    String → List ContainerStatus → List Container → Result (Option ContainerStatus)
status_of name [] containers = ok none
status_of name (st ∷ sts) [] = panic index_out_of_range
status_of name (st ∷ sts) (c ∷ cs) =
    if str_eq c.name name then ok (some st) else status_of name sts cs

unfoldable pub get_container_status : Pod → String → Result (Option ContainerStatus)
unfolding status_of
get_container_status p container_name = status_of container_name p.container_statuses p.containers

module _ (fraction : ℕ → ℕ → ℕ → ℕ) where
  unfoldable pub get_job_run_time_threshold : String → ℤ
  get_job_run_time_threshold timeout_str = elim (parse_duration fraction timeout_str) [
    | none ↦ pos default_cert_suite_timeout
    | some job_run_time_threshold ↦ job_run_time_threshold
  ]

  -- `elapsedTime > certSuiteTimeout+certSuiteTimeoutSafeGuard`, with the sum in an `int64`.
  unfoldable pub is_overdue : ℕ → ℕ → String → Bool
  unfolding get_job_run_time_threshold ◌+ℤ◌ wrap_int64 sub_time
  is_overdue time started_at timeout =
      ltb_ℤ (wrap_int64 (get_job_run_time_threshold timeout +ℤ pos cert_suite_timeout_safe_guard))
        (sub_time time started_at)

-- The `switch` on the exit code.
unfoldable pub phase_of_exit : ℤ → String
phase_of_exit (pos zero) = certsuite_run_status_phase_job_finished
phase_of_exit _ = certsuite_run_status_phase_job_error

module _ (C : Cluster) (fraction : ℕ → ℕ → ℕ → ℕ) where
  open C use {World}

  -- An update of the phase, and what is returned after it.
  unfoldable pub end_with_phase : NamespacedName → String → M World CtrlResult
  unfolding update_status_phase
  end_with_phase run_cr_namespaced_name phase = do
    e ← update_status_phase C run_cr_namespaced_name phase
    (elim e [
      | none ↦ return done
      | some x ↦ fail (
          errorf (
            "failed to update status field Phase of CR "
            <> (show_name run_cr_namespaced_name <> (": " <> error_text x))))
    ])

  -- The container has not terminated. A container that waits has no `Running`.
  unfoldable pub check_running : NamespacedName → String → Option ℕ → M World CtrlResult
  unfolding is_overdue end_with_phase now
  check_running run_cr_namespaced_name timeout none = lift (panic nil_dereference)
  check_running run_cr_namespaced_name timeout (some started_at) = do
    time ← now C
    (if is_overdue fraction time started_at timeout
        then end_with_phase run_cr_namespaced_name certsuite_run_status_phase_job_timeout
        else return (record { requeue_after = check_interval }))

  unfoldable pub check_container : NamespacedName → String → ContainerState → M World CtrlResult
  unfolding check_running phase_of_exit
  check_container run_cr_namespaced_name timeout st = elim st.terminated [
    | none ↦ check_running run_cr_namespaced_name timeout st.running
    | some exit_code ↦ end_with_phase run_cr_namespaced_name (phase_of_exit exit_code)
  ]

  unfoldable pub check_pod : NamespacedName → NamespacedName → String → Pod → M World CtrlResult
  unfolding get_container_status check_container
  check_pod run_cr_namespaced_name pod_namespaced_name timeout pod = do
    st ← lift (get_container_status pod cnf_cert_suite_container_name)
    (elim st [
      | none ↦ fail (
          errorf (
            "container "
            <> (cnf_cert_suite_container_name
                <> (" does not exist in pod " <> show_name pod_namespaced_name))))
      | some status ↦ check_container run_cr_namespaced_name timeout status.state
    ])

  unfoldable pub handle_end_of_cnf_cert_suite_run :
      String → String → String → String → M World CtrlResult
  unfolding get_pod check_pod
  handle_end_of_cnf_cert_suite_run run_cr_name cert_suite_pod_name namespace timeout = do
    let pod_namespaced_name : NamespacedName = record {
      namespace = namespace;
      name = cert_suite_pod_name;
    }
    let run_cr_namespaced_name : NamespacedName = record {
      namespace = namespace;
      name = run_cr_name;
    }
    a ← get_pod C pod_namespaced_name
    (elim a [
      | failure e ↦ fail (
          errorf (
            "unable to get pod "
            <> (cert_suite_pod_name <> (" in ns " <> (namespace <> (": " <> error_text e))))))
      | found pod ↦ check_pod run_cr_namespaced_name pod_namespaced_name timeout pod
    ])
