-- ===== src/Controller/Life/Ended.antt =====
-- The request of internal/controller/certsuiterun_controller.go that finds the suite's container at its end.
use mathlib.Core.Path.{subst}
use cnf_certsuite_operator.Prelude.{
  ℕ, zero, suc, String, ◌≡◌, ◌≢◌, refl, sym, ap, ◌∙◌, inl, inr, true, Option, some, [], ◌∷◌, ◌++◌,
  str_eq, eq_iff, Bool-cases,
}
use cnf_certsuite_operator.Prelude.Int.{ℤ, pos, negsuc}
use cnf_certsuite_operator.Go.{Result, ok}
use cnf_certsuite_operator.Action.{bind_ok}
use cnf_certsuite_operator.Definitions.{cnf_cert_suite_container_name}
use cnf_certsuite_operator.Pod.{Pod, ContainerState, ContainerStatus}
use cnf_certsuite_operator.Api.{NamespacedName, CertsuiteRun, allowed_phases}
use cnf_certsuite_operator.Controller.Cluster.{Cluster, Call}
use cnf_certsuite_operator.Controller.State.{State, M, return, lift, get_run, get_pod}
use cnf_certsuite_operator.Controller.Status.{update_status_phase}
use cnf_certsuite_operator.Controller.EndOfRun.{
  CtrlResult, done, get_container_status, end_with_phase, check_container, check_pod, phase_of_exit,
  handle_end_of_cnf_cert_suite_run,
}
use cnf_certsuite_operator.Controller.EndOfRun.Refused.{is_one_of}
use cnf_certsuite_operator.Controller.Reconcile.{handle_answer, handle_run, reconcile}
use cnf_certsuite_operator.Controller.Life.{
  Store, name_of, update_status-Updated, get_run-Stored, get_pod-Stored,
}

pub phase_of_exit_allowed : (code : ℤ) → is_one_of (phase_of_exit code) allowed_phases ≡ true
unfolding phase_of_exit
phase_of_exit_allowed (pos zero) = refl
phase_of_exit_allowed (pos (suc n)) = refl
phase_of_exit_allowed (negsuc n) = refl

-- The resource with another phase.
abbrev pub in_phase : String → CertsuiteRun → CertsuiteRun
in_phase phase r = record r { status = record r.status { phase = phase } }

module _ (C : Cluster) (D : Store C) (fraction : ℕ → ℕ → ℕ → ℕ) (req : NamespacedName) where
  open C use {World}

  -- A request that writes a phase and is then done.
  pub record Ended (phase : String) (r : CertsuiteRun) (m : Result CtrlResult × State World)
      : Type 0 where
    pub returned : m.0 ≡ ok (record { requeue_after = 0 })
    pub run_is : D.run_of req m.1.world ≡ some (in_phase phase r)

  pub end_with_phase-Ended :
      (phase : String) (r : CertsuiteRun) (s : State World)
      → D.run_of req s.world ≡ some r
      → name_of r ≡ req
      → is_one_of phase allowed_phases ≡ true
      → Ended phase r (end_with_phase C fraction req phase s)
  unfolding end_with_phase update_status_phase return
  end_with_phase-Ended phase r s there named allowed =
      let (t, e, u) =
        update_status-Updated C D req (λ st. record st { phase = phase }) r s there named allowed in
      let whole : end_with_phase C fraction req phase s ≡ (ok done, t) = bind_ok _ _ e in
      subst (Ended phase r) (sym whole) (record { returned = refl; run_is = u.run_is })

  pub check_container-terminated :
      (timeout : String) (st : ContainerState) (code : ℤ)
      → st.terminated ≡ some code
      → check_container C fraction req timeout st
        ≡ end_with_phase C fraction req (phase_of_exit code)
  unfolding check_container
  check_container-terminated timeout st code ended = rw (ended, check_container) refl

  check_pod-terminated :
      (n : NamespacedName) (pod : Pod) (st : ContainerStatus) (code : ℤ) (timeout : String)
      (s : State World)
      → get_container_status pod cnf_cert_suite_container_name ≡ ok (some st)
      → st.state.terminated ≡ some code
      → check_pod C fraction req n timeout pod s
        ≡ end_with_phase C fraction req (phase_of_exit code) s
  unfolding check_pod lift
  check_pod-terminated n pod st code timeout s status ended =
      bind_ok _ _ (
        ap
          (λ (x : Result (Option ContainerStatus)).
            let a : Result (Option ContainerStatus) × State World = (x, s) in a)
          status)
      ∙ ap (λ (m : M World CtrlResult). m s)
          (check_container-terminated timeout st.state code ended)

  pub handle_run-named :
      (r : CertsuiteRun) (pod_name : String) (s : State World)
      → pod_name ≢ ""
      → handle_run C fraction req r (some pod_name) s
        ≡ handle_end_of_cnf_cert_suite_run C fraction r.name pod_name r.namespace r.spec.time_out s
  unfolding handle_run
  handle_run-named r pod_name s nonempty = elim (Bool-cases (str_eq pod_name "")) [
    | inl blank ↦ absurd (nonempty ((eq_iff pod_name "").0 blank))
    | inr named ↦ rw named refl
  ]

  -- In a cluster that stores what it is sent, a request for a resource that names its pod, where the
  -- status at the suite's place says that it has terminated, leaves the resource in the phase of the
  -- exit code, CertSuiteFinished for 0 and CertSuiteError for any other, and otherwise as it was, its
  -- report included; the request is done.
  pub reconcile-Ended :
      (r : CertsuiteRun) (pod_name : String) (pod : Pod) (st : ContainerStatus) (code : ℤ)
      (s : State World)
      → D.run_of req s.world ≡ some r
      → name_of r ≡ req
      → r.status.cnf_cert_suite_pod_name ≡ some pod_name
      → pod_name ≢ ""
      → D.pod_of (record { namespace = req.namespace; name = pod_name }) s.world ≡ some pod
      → get_container_status pod cnf_cert_suite_container_name ≡ ok (some st)
      → st.state.terminated ≡ some code
      → Ended (phase_of_exit code) r (reconcile C fraction req s)
  unfolding reconcile handle_answer handle_end_of_cnf_cert_suite_run
  reconcile-Ended r pod_name pod st code s there named names nonempty pod_there status ended =
      let key : NamespacedName = record { namespace = r.namespace; name = pod_name } in
      let s1 : State World = record s { calls = s.calls ++ Call.get_run req ∷ [] } in
      let s2 : State World = record s1 { calls = s1.calls ++ Call.get_pod key ∷ [] } in
      let pod_there' : D.pod_of key s.world ≡ some pod =
        ap
          (λ (n : NamespacedName).
            D.pod_of (record { namespace = n.namespace; name = pod_name }) s.world)
          named
        ∙ pod_there in
      let whole : reconcile C fraction req s
          ≡ end_with_phase C fraction req (phase_of_exit code) s2 =
        bind_ok (get_run C req) _ (get_run-Stored C D req s r there)
        ∙ ap (λ (o : Option String). handle_run C fraction req r o s1) names
        ∙ handle_run-named r pod_name s1 nonempty
        ∙ bind_ok (get_pod C key) _ (get_pod-Stored C D key s1 pod pod_there')
        ∙ ap (λ (n : NamespacedName). check_pod C fraction n key r.spec.time_out pod s2) named
        ∙ check_pod-terminated key pod st code r.spec.time_out s2 status ended in
      subst (Ended (phase_of_exit code) r) (sym whole)
        (end_with_phase-Ended (phase_of_exit code) r s2 there named (phase_of_exit_allowed code))
