-- ===== src/Controller/EndOfRun/Refused.antt =====
-- The phases of internal/controller/certsuiterun_controller.go that the enumeration of
-- api/v1alpha1/certsuiterun_types.go does not have, with an API server that enforces it.
use cnf_certsuite_operator.Prelude.{
  ℕ, String, ◌≡◌, ◌≢◌, refl, ap, inl, inr, Bool, true, false, ◌||◌, Option, none, some, List, [],
  ◌∷◌, str_eq, Option-cases,
}
use cnf_certsuite_operator.Go.{Error, ok, err}
use cnf_certsuite_operator.Definitions.{
  cnf_cert_suite_container_name, certsuite_run_status_phase_job_timeout,
}
use cnf_certsuite_operator.Pod.{Pod, ContainerState, ContainerStatus}
use cnf_certsuite_operator.Api.{NamespacedName, CertsuiteRun, CertsuiteRunStatus, allowed_phases}
use cnf_certsuite_operator.Controller.Cluster.{
  Cluster, Answer, Attempts, last, again, found, failure,
}
use cnf_certsuite_operator.Controller.State.{State, ◌>>=◌, get_pod, now}
use cnf_certsuite_operator.Controller.Status.{
  write_status, set_status, update_status, update_status_phase,
}
use cnf_certsuite_operator.Controller.EndOfRun.{
  get_container_status, is_overdue, end_with_phase, check_running, check_container, check_pod,
  handle_end_of_cnf_cert_suite_run,
}

abbrev pub is_one_of : String → List String → Bool
is_one_of s [] = false
is_one_of s (t ∷ ts) = str_eq s t || is_one_of s ts

-- The last of the attempts fails if each attempt does.
Attempts-fail :
    {S : Type 0} (fn : S → Option Error × S)
    → ((s : S) → (fn s).0 ≢ none)
    → {s : S} {r : Option Error × S} → Attempts fn s r
    → r.0 ≢ none
Attempts-fail fn fails (last {s = s}) = fails s
Attempts-fail fn fails (again text e rest) = Attempts-fail fn fails rest

module _ (C : Cluster) where
  open C use {World}

  -- The API server accepts no status whose phase is not in the enumeration.
  abbrev pub Validates : Type 0
  Validates =
      (run_cr : CertsuiteRun) (w : World)
      → is_one_of run_cr.status.phase allowed_phases ≡ false
      → (C.update_run_status run_cr w).0 ≢ none

  module _ (validates : Validates) (phase : String)
      (outside : is_one_of phase allowed_phases ≡ false) where
    abbrev set_phase : CertsuiteRunStatus → CertsuiteRunStatus
    set_phase status = record status { phase = phase }

    write_status-fail :
        (a : Answer CertsuiteRun) (s : State World) → (write_status C set_phase a s).0 ≢ none
    unfolding write_status
    write_status-fail (failure e) s = cc
    write_status-fail (found run_cr) s = validates _ s.world outside

    retry_on_conflict-fail :
        (n : NamespacedName) (s : State World)
        → (e : Error) × ((C.retry_on_conflict (State World) (set_status C n set_phase) s).0
            ≡ some e)
    unfolding set_status
    retry_on_conflict-fail n s =
        let r = C.retry_on_conflict (State World) (set_status C n set_phase) s in
        elim (Option-cases r.0) [
          | inl e ↦ absurd (
              Attempts-fail (set_status C n set_phase)
                (λ t. write_status-fail (C.get_run n t.world).0 _)
                (C.retry_attempts (State World) (set_status C n set_phase) s) e)
          | inr (x, e) ↦ (x, e)
        ]

    end_with_phase-fail :
        (fraction : ℕ → ℕ → ℕ → ℕ) (n : NamespacedName) (s : State World)
        → (e : Error) × ((end_with_phase C fraction n phase s).0 ≡ err e)
    unfolding end_with_phase ◌>>=◌ update_status_phase update_status set_status
    end_with_phase-fail fraction n s = let (x, e) = retry_on_conflict-fail n s in rw e (_, refl)

  opened_container :
      (fraction : ℕ → ℕ → ℕ → ℕ) (n : NamespacedName) (timeout : String) (st : ContainerState)
      (t : ℕ)
      → st.terminated ≡ none
      → st.running ≡ some t
      → check_container C fraction n timeout st ≡ check_running C fraction n timeout (some t)
  unfolding check_container
  opened_container fraction n timeout st t alive started =
      rw (alive, check_container) (ap (check_running C fraction n timeout) started)

  running_refused :
      Validates
      → (fraction : ℕ → ℕ → ℕ → ℕ) (n : NamespacedName) (timeout : String) (t : ℕ) (s : State World)
      → is_overdue fraction (C.now s.world) t timeout ≡ true
      → (e : Error) × ((check_running C fraction n timeout (some t) s).0 ≡ err e)
  unfolding check_running ◌>>=◌ now
  running_refused validates fraction n timeout t s late =
      rw late
        (end_with_phase-fail validates certsuite_run_status_phase_job_timeout refl fraction n s)

  -- If the API server enforces the enumeration of phases, the end of a run never succeeds once
  -- the timeout has passed: when the status at the suite's place says that the container runs,
  -- and the timeout and two minutes have passed, the phase is refused and an error is returned,
  -- whatever else the cluster does.
  pub handle_end_of_cnf_cert_suite_run_refused :
      Validates
      → (fraction : ℕ → ℕ → ℕ → ℕ) (n : NamespacedName) (pod_name timeout : String)
        (s : State World) (w : World) (pod : Pod) (st : ContainerStatus) (t : ℕ)
      → C.get_pod (record { namespace = n.namespace; name = pod_name }) s.world ≡ (found pod, w)
      → get_container_status pod cnf_cert_suite_container_name ≡ ok (some st)
      → st.state.terminated ≡ none
      → st.state.running ≡ some t
      → is_overdue fraction (C.now w) t timeout ≡ true
      → (e : Error) × ((handle_end_of_cnf_cert_suite_run C fraction n.name pod_name n.namespace
            timeout s).0
          ≡ err e)
  unfolding handle_end_of_cnf_cert_suite_run check_pod ◌>>=◌ get_pod now
  handle_end_of_cnf_cert_suite_run_refused validates fraction n pod_name timeout s w pod st t answer
        named alive started late =
      let opened : check_container C fraction n timeout st.state
          ≡ check_running C fraction n timeout (some t) =
        opened_container fraction n timeout st.state t alive started in
      rw answer (rw named (rw opened (running_refused validates fraction n timeout t _ late)))
