-- ===== src/Controller/Reconcile.antt =====
-- `Reconcile` of internal/controller/certsuiterun_controller.go, in the parts that its comments
-- name.
use cnf_certsuite_operator.Prelude.{ℕ, String, ◌<>◌, Option, none, some, str_eq, if◌then◌else◌}
use cnf_certsuite_operator.Prelude.Dict.{lookup, insert, erase}
use cnf_certsuite_operator.Go.{Error, Result, ok, err, panic, ignore_not_found}
use cnf_certsuite_operator.Definitions.{cnf_cert_pod_name_prefix}
use cnf_certsuite_operator.Pod.{Pod}
use cnf_certsuite_operator.Api.{
  NamespacedName, CertsuiteRun, status_phase_cert_suite_deploying,
  status_phase_cert_suite_deploy_error, status_phase_cert_suite_running,
}
use cnf_certsuite_operator.Job.{new}
use cnf_certsuite_operator.Controller.RunPod.{job_options}
use cnf_certsuite_operator.Controller.Cluster.{Cluster, Answer, found, failure}
use cnf_certsuite_operator.Controller.State.{
  M, NamespacedName_eq, ◌>>=◌, ◌>>◌, return, fail, lift, next_int, format_int, get_run, create_pod,
  delete_pod,
}
use cnf_certsuite_operator.Controller.Status.{update_status, update_status_phase}
use cnf_certsuite_operator.Controller.EndOfRun.{
  CtrlResult, done, check_interval, handle_end_of_cnf_cert_suite_run,
}

-- fmt.Sprintf("%s-%d", …)
unfoldable pub pod_name_of : ℕ → String
unfolding format_int
pod_name_of id = cnf_cert_pod_name_prefix <> ("-" <> format_int id)

module _ (C : Cluster) (fraction : ℕ → ℕ → ℕ → ℕ) where
  open C use {World}

  -- The run's pod is removed, if one is known; an error of the removal is only logged.
  unfoldable pub forget_found : NamespacedName → Option String → M World (Unit {0})
  unfolding erase delete_pod
  forget_found req none s = (ok tt, s)
  forget_found req (some pod_name) s =
      let (r, t) = delete_pod C (record { namespace = req.namespace; name = pod_name }) s in
      (ok tt, record t { certification_runs = erase req t.certification_runs })

  unfoldable pub forget_run : NamespacedName → M World (Unit {0})
  unfolding lookup forget_found
  forget_run req s = forget_found req (lookup req s.certification_runs) s

  -- client.IgnoreNotFound(getErr)
  unfoldable pub return_ignoring_not_found : Error → M World CtrlResult
  return_ignoring_not_found e = elim (ignore_not_found e) [ none ↦ return done | some x ↦ fail x ]

  unfoldable pub handle_get_error : NamespacedName → Error → M World CtrlResult
  unfolding forget_run return_ignoring_not_found
  handle_get_error req get_err = do forget_run req; return_ignoring_not_found get_err

  -- `certSuitePodID++`, and the new run's entry with its pod's name.
  unfoldable pub register_run : NamespacedName → M World String
  unfolding insert pod_name_of
  register_run req s =
      let id = next_int s.cert_suite_pod_id in
      let name = pod_name_of id in
      (
        ok name,
        record s {
          cert_suite_pod_id = id;
          certification_runs = insert req name s.certification_runs;
        },
      )

  -- An error of the last update is only logged.
  unfoldable pub deploy_error : NamespacedName → M World CtrlResult
  unfolding update_status_phase
  deploy_error req = do
    e ← update_status_phase C req status_phase_cert_suite_deploy_error
    return done

  unfoldable pub set_running : NamespacedName → String → M World CtrlResult
  unfolding update_status
  set_running req pod_name = do
    e ← update_status C req λ status. record status {
      phase = status_phase_cert_suite_running;
      cnf_cert_suite_pod_name = some pod_name;
    }
    (elim e [ some x ↦ return done | none ↦ return (record { requeue_after = check_interval }) ])

  unfoldable pub launch_pod : NamespacedName → String → Result Pod → M World CtrlResult
  unfolding deploy_error set_running create_pod
  launch_pod req pod_name (err e) = deploy_error req
  launch_pod req pod_name (panic p) = lift (panic p)
  launch_pod req pod_name (ok pod) = do
    e ← create_pod C pod
    (elim e [ some x ↦ deploy_error req | none ↦ set_running req pod_name ])

  -- The launch, if the phase could be set.
  unfoldable pub launch_after :
      NamespacedName → CertsuiteRun → String → Option Error → M World CtrlResult
  unfolding launch_pod new job_options
  launch_after req run_cr pod_name (some x) = return done
  launch_after req run_cr pod_name none = λ s.
      launch_pod req pod_name (new (job_options s.side_car_image pod_name req.namespace run_cr)) s

  -- A resource without a pod.
  unfoldable pub start_run : NamespacedName → CertsuiteRun → M World CtrlResult
  unfolding register_run launch_after update_status_phase
  start_run req run_cr = do
    pod_name ← register_run req
    e ← update_status_phase C req status_phase_cert_suite_deploying
    launch_after req run_cr pod_name e

  -- The test `CnfCertSuitePodName != nil && *CnfCertSuitePodName != ""`.
  unfoldable pub handle_run : NamespacedName → CertsuiteRun → Option String → M World CtrlResult
  unfolding start_run handle_end_of_cnf_cert_suite_run
  handle_run req run_cr none = start_run req run_cr
  handle_run req run_cr (some pod_name) =
      if str_eq pod_name ""
      then start_run req run_cr
      else handle_end_of_cnf_cert_suite_run C fraction run_cr.name pod_name run_cr.namespace
          run_cr.spec.time_out

  unfoldable pub handle_answer : NamespacedName → Answer CertsuiteRun → M World CtrlResult
  unfolding handle_get_error handle_run
  handle_answer req (failure e) = handle_get_error req e
  handle_answer req (found run_cr) = handle_run req run_cr run_cr.status.cnf_cert_suite_pod_name

  unfoldable pub reconcile : NamespacedName → M World CtrlResult
  unfolding get_run handle_answer
  reconcile req = do a ← get_run C req; handle_answer req a
