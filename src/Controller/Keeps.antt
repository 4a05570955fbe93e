-- ===== src/Controller/Keeps.antt =====
-- A property of the states that the calls and the status updates of
-- internal/controller/certsuiterun_controller.go keep is kept by the whole handling of a run.
use cnf_certsuite_operator.Prelude.{ℕ, zero, suc, String, ◌≡◌, refl, true, Option, none, some}
use cnf_certsuite_operator.Prelude.Dict.{Dict}
use cnf_certsuite_operator.Prelude.Int.{ℤ, pos, negsuc}
use cnf_certsuite_operator.Go.{Error, Result, ok, err, panic}
use cnf_certsuite_operator.Pod.{Pod}
use cnf_certsuite_operator.Api.{
  NamespacedName, CertsuiteRun, status_phase_cert_suite_deploying, status_phase_cert_suite_running,
}
use cnf_certsuite_operator.Controller.Cluster.{Cluster, found, failure}
use cnf_certsuite_operator.Controller.State.{State, M, ◌>>=◌, next_int, get_pod, create_pod, now}
use cnf_certsuite_operator.Controller.Status.{update_status, update_status_phase}
use cnf_certsuite_operator.Controller.EndOfRun.{
  end_with_phase, check_running, check_container, check_pod, phase_of_exit,
  handle_end_of_cnf_cert_suite_run,
}
use cnf_certsuite_operator.Controller.Reconcile.{
  pod_name_of, register_run, deploy_error, set_running, launch_pod, launch_after, start_run,
  handle_run,
}
use cnf_certsuite_operator.Action.{
  Leads, Leads-return, Leads-fail, Leads-lift, Leads-bind, Leads-if,
}
use cnf_certsuite_operator.Controller.EndOfRun.Refused.{is_one_of}
use cnf_certsuite_operator.Controller.Updates.{phases}

abbrev name_of : CertsuiteRun → NamespacedName
name_of r = record { namespace = r.namespace; name = r.name }

-- What an action on the names that are `Good` keeps, if the calls and the status updates keep it, and if it
-- does not depend on the registry and on the counter.
pub record Keeping (C : Cluster) (P : State C.World → Type 0) (Good : NamespacedName → Type 0)
    : Type 0 where
  pub get_pod-P : (n : NamespacedName) → Leads P P (get_pod C n)
  pub create_pod-P : (p : Pod) → Leads P P (create_pod C p)
  pub now-P : Leads P P (now C)
  pub registered-P :
      (s : State C.World) (runs : Dict NamespacedName String) (id : ℕ)
      → P s
      → P (record s { certification_runs = runs; cert_suite_pod_id = id })
  pub phase-P :
      (n : NamespacedName) (phase : String)
      → Good n
      → is_one_of phase phases ≡ true
      → Leads P P (update_status_phase C n phase)
  pub running-P :
      (n : NamespacedName) (id : ℕ)
      → Good n
      → Leads P P (
          update_status C n (λ status. record status {
            phase = status_phase_cert_suite_running;
            cnf_cert_suite_pod_name = some (pod_name_of id);
          }))

module _ (C : Cluster) (fraction : ℕ → ℕ → ℕ → ℕ) {P : State C.World → Type 0}
    {Good : NamespacedName → Type 0} (K : Keeping C P Good) where
  open C use {World}

  abbrev Keeps : {A : Type 0} → M World A → Type 0
  Keeps m = Leads P P m

  module _ (n : NamespacedName) (good : Good n) where
    end_with_phase-Keeps :
        (phase : String) → is_one_of phase phases ≡ true → Keeps (end_with_phase C fraction n phase)
    unfolding end_with_phase
    end_with_phase-Keeps phase one =
        Leads-bind _ _ (K.phase-P n phase good one)
          (elim [ none ↦ Leads-return _ _ | some x ↦ Leads-fail _ _ ])

    check_running-Keeps :
        (timeout : String) (started : Option ℕ) → Keeps (check_running C fraction n timeout started)
    unfolding check_running
    check_running-Keeps timeout none = Leads-lift _ _
    check_running-Keeps timeout (some t) =
        Leads-bind _ _ (K.now-P)
          λ time. Leads-if _ _ _ (end_with_phase-Keeps _ refl) (Leads-return _ _)

    exit-Keeps :
        (timeout : String) (running : Option ℕ) (t : Option ℤ)
        → Keeps (elim t [
          | none ↦ check_running C fraction n timeout running
          | some exit_code ↦ end_with_phase C fraction n (phase_of_exit exit_code)
        ])
    unfolding phase_of_exit
    exit-Keeps timeout running none = check_running-Keeps timeout running
    exit-Keeps timeout running (some (pos zero)) = end_with_phase-Keeps _ refl
    exit-Keeps timeout running (some (pos (suc m))) = end_with_phase-Keeps _ refl
    exit-Keeps timeout running (some (negsuc m)) = end_with_phase-Keeps _ refl

    check_pod-Keeps :
        (m : NamespacedName) (timeout : String) (pod : Pod)
        → Keeps (check_pod C fraction n m timeout pod)
    unfolding check_pod check_container
    check_pod-Keeps m timeout pod = Leads-bind _ _ (Leads-lift _ _) (elim [
      | none ↦ Leads-fail _ _
      | some st ↦ exit-Keeps timeout st.state.running st.state.terminated
    ])

  end-Keeps :
      (run_cr_name pod_name namespace timeout : String)
      → Good (record { namespace = namespace; name = run_cr_name })
      → Keeps (handle_end_of_cnf_cert_suite_run C fraction run_cr_name pod_name namespace timeout)
  unfolding handle_end_of_cnf_cert_suite_run
  end-Keeps run_cr_name pod_name namespace timeout good =
      Leads-bind _ _ (K.get_pod-P _)
        (elim [ failure e ↦ Leads-fail _ _ | found pod ↦ check_pod-Keeps _ good _ timeout pod ])

  module _ (req : NamespacedName) (good : Good req) where
    deploy_error-Keeps : Keeps (deploy_error C fraction req)
    unfolding deploy_error
    deploy_error-Keeps = Leads-bind _ _ (K.phase-P req _ good refl) (λ _. Leads-return _ _)

    set_running-Keeps : (id : ℕ) → Keeps (set_running C fraction req (pod_name_of id))
    unfolding set_running
    set_running-Keeps id =
        Leads-bind _ _ (K.running-P req id good)
          (elim [ none ↦ Leads-return _ _ | some x ↦ Leads-return _ _ ])

    launch_pod-Keeps :
        (id : ℕ) (pod : Result Pod) → Keeps (launch_pod C fraction req (pod_name_of id) pod)
    unfolding launch_pod
    launch_pod-Keeps id (err e) = deploy_error-Keeps
    launch_pod-Keeps id (panic p) = Leads-lift _ _
    launch_pod-Keeps id (ok pod) =
        Leads-bind _ _ (K.create_pod-P pod)
          (elim [ none ↦ set_running-Keeps id | some x ↦ deploy_error-Keeps ])

    launch_after-Keeps :
        (run_cr : CertsuiteRun) (id : ℕ) (e : Option Error)
        → Keeps (launch_after C fraction req run_cr (pod_name_of id) e)
    unfolding launch_after
    launch_after-Keeps run_cr id (some x) = Leads-return _ _
    launch_after-Keeps run_cr id none = record { at = λ s h. (launch_pod-Keeps id _).at s h }

    start_run-Keeps : (run_cr : CertsuiteRun) → Keeps (start_run C fraction req run_cr)
    unfolding start_run register_run ◌>>=◌
    start_run-Keeps run_cr = record {
      at = λ s h.
          (Leads-bind _ _ (K.phase-P req status_phase_cert_suite_deploying good refl)
              (launch_after-Keeps run_cr (next_int s.cert_suite_pod_id))).at
            (register_run C fraction req s).1 (K.registered-P s _ _ h);
    }

    pub handle_run-Keeps :
        (run_cr : CertsuiteRun) (pod_name : Option String)
        → Good (name_of run_cr)
        → Keeps (handle_run C fraction req run_cr pod_name)
    unfolding handle_run
    handle_run-Keeps run_cr none named = start_run-Keeps run_cr
    handle_run-Keeps run_cr (some pod_name) named =
        Leads-if _ _ _ (start_run-Keeps run_cr) (end-Keeps _ _ _ _ named)
