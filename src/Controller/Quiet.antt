-- ===== src/Controller/Quiet.antt =====
-- The actions of internal/controller/certsuiterun_controller.go that leave the registry of runs
-- and the pods alone, and the launch, which creates one pod.
use cnf_certsuite_operator.Prelude.{ℕ, String, Option, none, some, [], ◌∷◌, ◌++◌}
use cnf_certsuite_operator.Prelude.Int.{ℤ}
use cnf_certsuite_operator.Go.{ok}
use cnf_certsuite_operator.Pod.{Pod, ContainerState}
use cnf_certsuite_operator.Api.{NamespacedName}
use cnf_certsuite_operator.Controller.Cluster.{Cluster, found, failure}
use cnf_certsuite_operator.Controller.State.{NamespacedName_eq}
use cnf_certsuite_operator.Controller.EndOfRun.{
  end_with_phase, check_running, check_container, check_pod, phase_of_exit,
  handle_end_of_cnf_cert_suite_run,
}
use cnf_certsuite_operator.Controller.Reconcile.{deploy_error, set_running, launch_pod}
use cnf_certsuite_operator.Action.{
  Leads, Leads-return, Leads-fail, Leads-lift, Leads-bind, Leads-if,
}
use cnf_certsuite_operator.Controller.Frame.{
  View, Sees, get_pod-Sees, now-Sees, create_pod-Sees, update_status-Sees, update_status_phase-Sees,
}

module _ (C : Cluster) (fraction : ℕ → ℕ → ℕ → ℕ) (v : View) where
  open C use {World}

  pub end_with_phase-Sees :
      (n : NamespacedName) (phase : String)
      → Leads (Sees v) (Sees v) (end_with_phase C fraction n phase)
  unfolding end_with_phase
  end_with_phase-Sees n phase =
      Leads-bind _ _ (update_status_phase-Sees C v n phase)
        (elim [ none ↦ Leads-return _ _ | some x ↦ Leads-fail _ _ ])

  check_running-Sees :
      (n : NamespacedName) (timeout : String) (started : Option ℕ)
      → Leads (Sees v) (Sees v) (check_running C fraction n timeout started)
  unfolding check_running
  check_running-Sees n timeout none = Leads-lift _ _
  check_running-Sees n timeout (some t) =
      Leads-bind _ _ (now-Sees C v)
        λ time. Leads-if _ _ _ (end_with_phase-Sees n _) (Leads-return _ _)

  check_container-Sees :
      (n : NamespacedName) (timeout : String) (st : ContainerState)
      → Leads (Sees v) (Sees v) (check_container C fraction n timeout st)
  unfolding check_container
  check_container-Sees n timeout st = by_exit st.terminated
    where
      by_exit :
          (t : Option ℤ)
          → Leads (Sees v) (Sees v) (elim t [
            | none ↦ check_running C fraction n timeout st.running
            | some exit_code ↦ end_with_phase C fraction n (phase_of_exit exit_code)
          ])
      by_exit none = check_running-Sees n timeout st.running
      by_exit (some exit_code) = end_with_phase-Sees n (phase_of_exit exit_code)

  check_pod-Sees :
      (n m : NamespacedName) (timeout : String) (pod : Pod)
      → Leads (Sees v) (Sees v) (check_pod C fraction n m timeout pod)
  unfolding check_pod
  check_pod-Sees n m timeout pod =
      Leads-bind _ _ (Leads-lift _ _)
        (elim [ none ↦ Leads-fail _ _ | some st ↦ check_container-Sees n timeout st.state ])

  pub end-Sees :
      (run_cr_name pod_name namespace timeout : String)
      → Leads
          (Sees v)
          (Sees v)
          (handle_end_of_cnf_cert_suite_run C fraction run_cr_name pod_name namespace timeout)
  unfolding handle_end_of_cnf_cert_suite_run
  end-Sees run_cr_name pod_name namespace timeout =
      Leads-bind _ _ (get_pod-Sees C v _)
        (elim [ failure e ↦ Leads-fail _ _ | found pod ↦ check_pod-Sees _ _ timeout pod ])

  pub deploy_error-Sees :
      (req : NamespacedName) → Leads (Sees v) (Sees v) (deploy_error C fraction req)
  unfolding deploy_error
  deploy_error-Sees req =
      Leads-bind _ _ (update_status_phase-Sees C v req _) (λ _. Leads-return _ _)

  set_running-Sees :
      (req : NamespacedName) (pod_name : String)
      → Leads (Sees v) (Sees v) (set_running C fraction req pod_name)
  unfolding set_running
  set_running-Sees req pod_name =
      Leads-bind _ _ (update_status-Sees C v req _)
        (elim [ none ↦ Leads-return _ _ | some x ↦ Leads-return _ _ ])

module _ (C : Cluster) (fraction : ℕ → ℕ → ℕ → ℕ) (v : View) where
  open C use {World}

  pub launch_pod-Sees :
      (req : NamespacedName) (pod_name : String) (pod : Pod)
      → Leads
          (Sees v)
          (Sees (record v { pods = v.pods ++ pod ∷ [] }))
          (launch_pod C fraction req pod_name (ok pod))
  unfolding launch_pod
  launch_pod-Sees req pod_name pod = Leads-bind _ _ (create_pod-Sees C v pod) (elim [
    | none ↦ set_running-Sees C fraction _ req pod_name
    | some x ↦ deploy_error-Sees C fraction _ req
  ])
