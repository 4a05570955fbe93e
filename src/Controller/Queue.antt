-- ===== src/Controller/Queue.antt =====
-- Which requests of internal/controller/certsuiterun_controller.go come back, in a cluster that stores what
-- it is sent: a request that is done with an unfinished run would leave the run alone for good, since the
-- updates of resources make no requests.
pub mod Missing
pub mod Others
pub mod Kept
mod Examples
use mathlib.Core.Path.{subst}
use cnf_certsuite_operator.Prelude.{
  ℕ, zero, suc, ◌*◌, String, ◌≡◌, ◌≢◌, ◌⊎◌, refl, sym, ap, some_inj, ◌∙◌, inl, inr, Bool, true,
  false, not, Option, none, some, [], ◌∷◌, ◌++◌, arith, ◌==◌, Bool-cases, Option-cases, str_eq,
  eq_iff,
}
use cnf_certsuite_operator.Prelude.Int.{ℤ, pos, negsuc}
use cnf_certsuite_operator.Go.{Error, Result, ok, err, panic}
use cnf_certsuite_operator.Action.{bind_ok}
use cnf_certsuite_operator.Definitions.{
  cnf_cert_suite_container_name, certsuite_run_status_phase_job_timeout,
}
use cnf_certsuite_operator.Duration.{second}
use cnf_certsuite_operator.Pod.{Pod, ContainerState, ContainerStatus}
use cnf_certsuite_operator.Api.{NamespacedName, CertsuiteRun, allowed_phases}
use cnf_certsuite_operator.Controller.Cluster.{Cluster, Answer, Call, found, failure, Answer-cases}
use cnf_certsuite_operator.Controller.State.{
  State, NamespacedName_eq, ◌>>=◌, return, fail, lift, get_pod, now,
}
use cnf_certsuite_operator.Controller.Status.{update_status_phase}
use cnf_certsuite_operator.Controller.EndOfRun.{
  CtrlResult, done, get_container_status, is_overdue, end_with_phase, check_running,
  check_container, check_pod, phase_of_exit, handle_end_of_cnf_cert_suite_run,
}
use cnf_certsuite_operator.Controller.EndOfRun.Panics.{Result-cases}
use cnf_certsuite_operator.Controller.Life.{Store, name_of}
use cnf_certsuite_operator.Controller.Life.Ended.{
  Ended, in_phase, end_with_phase-Ended, check_container-terminated, phase_of_exit_allowed,
}
use cnf_certsuite_operator.Controller.Life.Clash.{update_status-refused}

-- The request stays in the queue of controller-runtime: after an error or a panic, which it recovers from,
-- and after a result that asks for it.
abbrev pub still : Result CtrlResult → Bool
still (ok r) = not (r.requeue_after == 0)
still (err e) = true
still (panic p) = true

-- The run's pod is still to be waited for, or to be started.
abbrev pub Unfinished : CertsuiteRun → Type 0
Unfinished r = (r.status.phase ≢ "CertSuiteFinished") × (r.status.phase ≢ "CertSuiteError")

phase_of_exit-final :
    (code : ℤ)
    → (phase_of_exit code ≡ "CertSuiteFinished") ⊎ (phase_of_exit code ≡ "CertSuiteError")
unfolding phase_of_exit
phase_of_exit-final (pos zero) = inl refl
phase_of_exit-final (pos (suc n)) = inr refl
phase_of_exit-final (negsuc n) = inr refl

module _ (C : Cluster) (D : Store C) (fraction : ℕ → ℕ → ℕ → ℕ) (req : NamespacedName) where
  open C use {World}

  -- If the run is unfinished behind the action, its request stays.
  abbrev pub Stays : Result CtrlResult × State World → Type 0
  Stays m = (r : CertsuiteRun) → D.run_of req m.1.world ≡ some r → Unfinished r → still m.0 ≡ true

  Ended-Stays :
      (code : ℤ) (r : CertsuiteRun) (m : Result CtrlResult × State World)
      → Ended C D fraction req (phase_of_exit code) r m
      → Stays m
  Ended-Stays code r m ended r' there (unfinished, no_error) =
      let same : phase_of_exit code ≡ r'.status.phase =
        ap (λ (x : CertsuiteRun). x.status.phase) (some_inj (sym ended.run_is ∙ there)) in
      elim (phase_of_exit-final code) [
        | inl e ↦ absurd (unfinished (sym same ∙ e))
        | inr e ↦ absurd (no_error (sym same ∙ e))
      ]

  -- An action on the stored run.
  module _ (r : CertsuiteRun) (timeout : String) (named : name_of r ≡ req) where
    timeout-Stays :
        (s : State World)
        → D.run_of req s.world ≡ some r
        → Stays (end_with_phase C fraction req certsuite_run_status_phase_job_timeout s)
    unfolding end_with_phase update_status_phase fail
    timeout-Stays s there =
        let (e, t, refused, same) =
          update_status-refused C D fraction req
            (λ st. record st { phase = certsuite_run_status_phase_job_timeout }) r s there refl in
        subst Stays (sym (bind_ok _ _ refused)) (λ r' there' unfinished. refl)

    check_running-Stays :
        (o : Option ℕ) (s : State World)
        → D.run_of req s.world ≡ some r
        → Stays (check_running C fraction req timeout o s)
    unfolding check_running ◌>>=◌ lift now return
    check_running-Stays none s there = λ r' there' unfinished. refl
    check_running-Stays (some t) s there =
        elim (Bool-cases (is_overdue fraction (C.now s.world) t timeout)) [
          | inl late ↦ rw late (timeout-Stays s there)
          | inr early ↦ rw early (λ r' there' unfinished. refl)
        ]

    check_container-alive :
        (st : ContainerState)
        → st.terminated ≡ none
        → check_container C fraction req timeout st
          ≡ check_running C fraction req timeout st.running
    unfolding check_container
    check_container-alive st alive = rw (alive, check_container) refl

    check_container-Stays :
        (st : ContainerState) (s : State World)
        → D.run_of req s.world ≡ some r
        → Stays (check_container C fraction req timeout st s)
    check_container-Stays st s there = elim (Option-cases st.terminated) [
      | inl alive ↦ rw (check_container-alive st alive) (check_running-Stays st.running s there)
      | inr (code, e) ↦ rw (check_container-terminated C D fraction req timeout st code e) (
          Ended-Stays code r _ (
            end_with_phase-Ended C D fraction req (phase_of_exit code) r s there named
              (phase_of_exit_allowed code)))
    ]

    check_pod-Stays :
        (n : NamespacedName) (pod : Pod) (s : State World)
        → D.run_of req s.world ≡ some r
        → Stays (check_pod C fraction req n timeout pod s)
    unfolding check_pod ◌>>=◌ lift fail
    check_pod-Stays n pod s there =
        elim (Result-cases (get_container_status pod cnf_cert_suite_container_name)) [
          | inl missing ↦ rw missing (λ r' there' unfinished. refl)
          | inr (inl (st, e)) ↦ rw e (check_container-Stays st.state s there)
          | inr (inr (inl (x, e))) ↦ rw e (λ r' there' unfinished. refl)
          | inr (inr (inr (p, e))) ↦ rw e (λ r' there' unfinished. refl)
        ]

    pub handle_end_of_cnf_cert_suite_run-Stays :
        (pod_name : String) (s : State World)
        → D.run_of req s.world ≡ some r
        → Stays (handle_end_of_cnf_cert_suite_run C fraction r.name pod_name r.namespace timeout s)
    unfolding handle_end_of_cnf_cert_suite_run ◌>>=◌ get_pod fail
    handle_end_of_cnf_cert_suite_run-Stays pod_name s there =
        let key : NamespacedName = record { namespace = r.namespace; name = pod_name } in
        let same = D.get_pod-same key s.world in
        elim (Answer-cases (C.get_pod key s.world).0) [
          | inl (x, e) ↦ rw e (λ r' there' unfinished. refl)
          | inr (pod, e) ↦
              let t : State World = record s {
                calls = s.calls ++ Call.get_pod key ∷ [];
                world = (C.get_pod key s.world).1;
              } in
              rw e (
                subst (λ (n : NamespacedName). Stays (check_pod C fraction n key timeout pod t))
                  (sym named) (check_pod-Stays key pod t (ap (D.run_of req) same ∙ there)))
        ]
