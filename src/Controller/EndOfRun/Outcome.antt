-- ===== src/Controller/EndOfRun/Outcome.antt =====
-- What `handleEndOfCnfCertSuiteRun` of internal/controller/certsuiterun_controller.go makes of the
-- state of the suite's container.
use mathlib.Core.Path.{subst}
use cnf_certsuite_operator.Prelude.{
  sym, ℕ, zero, suc, ◌+◌, ◌*◌, ◌^◌, ◌≤◌, ◌<◌, String, ◌≡◌, ◌≢◌, refl, ap, ◌∙◌, inl, inr, Option,
  none, some, [], ◌∷◌, ◌++◌, arith, ltb, Bool-cases, Option-cases,
}
use cnf_certsuite_operator.Prelude.Int.{ℤ, pos, negsuc, ◌+ℤ◌, wrap_int64}
use cnf_certsuite_operator.Go.{ok}
use cnf_certsuite_operator.Definitions.{cnf_cert_suite_container_name}
use cnf_certsuite_operator.Duration.{minute, second, parse_duration, sub_time}
use cnf_certsuite_operator.Pod.{Pod, ContainerState, ContainerStatus}
use cnf_certsuite_operator.Api.{NamespacedName}
use cnf_certsuite_operator.Controller.Cluster.{Cluster, Call, found}
use cnf_certsuite_operator.Controller.State.{State, M, ◌>>=◌, return, get_pod, now}
use cnf_certsuite_operator.Controller.EndOfRun.{
  CtrlResult, get_job_run_time_threshold, is_overdue, end_with_phase, check_running,
  check_container, check_pod, phase_of_exit, handle_end_of_cnf_cert_suite_run,
}
use cnf_certsuite_operator.Controller.EndOfRun.Placement.{
  find_named, Aligned, get_container_status-Aligned,
}

pub threshold-parsed :
    (fraction : ℕ → ℕ → ℕ → ℕ) (timeout : String) (z : ℤ)
    → parse_duration fraction timeout ≡ some z
    → get_job_run_time_threshold fraction timeout ≡ z
unfolding get_job_run_time_threshold
threshold-parsed fraction timeout z parsed = rw (parsed, get_job_run_time_threshold) refl

-- Below the range of `int64`, the test compares the elapsed time with the timeout and two minutes.
is_overdue-exact :
    (fraction : ℕ → ℕ → ℕ → ℕ) (time started_at d : ℕ) (timeout : String)
    → parse_duration fraction timeout ≡ some (pos d)
    → d + 2 * minute < 2 ^ 63
    → time < started_at + 2 ^ 63
    → is_overdue fraction time started_at timeout ≡ ltb (started_at + (d + 2 * minute)) time
unfolding is_overdue ◌+ℤ◌ wrap_int64 sub_time
is_overdue-exact fraction time started_at d timeout parsed small near =
    rw (threshold-parsed fraction timeout (pos d) parsed) (ground arith)

-- The phase that is written, if any, for a container that is running or has terminated.
pub data EndsAs (time d : ℕ) (st : ContainerState) : Option String → Type 0 where
  finished : st.terminated ≡ some (pos 0) → EndsAs time d st (some "CertSuiteFinished")
  failed :
      (code : ℤ)
      → st.terminated ≡ some code
      → code ≢ pos 0
      → EndsAs time d st (some "CertSuiteError")
  running :
      (t : ℕ)
      → st.terminated ≡ none
      → st.running ≡ some t
      → time ≤ t + d + 2 * minute
      → EndsAs time d st none
  timed_out :
      (t : ℕ)
      → st.terminated ≡ none
      → st.running ≡ some t
      → t + d + 2 * minute < time
      → EndsAs time d st (some "CertSuiteTimeout")

module _ (C : Cluster) (fraction : ℕ → ℕ → ℕ → ℕ) (n : NamespacedName) (timeout : String)
    (d : ℕ) where
  open C use {World}

  -- The phase is written, or the request comes back in ten seconds.
  abbrev pub writes : Option String → M World CtrlResult
  writes none = return (record { requeue_after = 10 * second })
  writes (some phase) = end_with_phase C fraction n phase

  -- The end of a run for one state of the suite's container.
  abbrev pub Ends : ContainerState → State World → M World CtrlResult → Type 0
  Ends st s m = (phase : Option String) × EndsAs (C.now s.world) d st phase × (m s ≡ writes phase s)

  module _ (parsed : parse_duration fraction timeout ≡ some (pos d))
      (small : d + 2 * minute < 2 ^ 63) where
    check_running-Ends :
        (st : ContainerState) (t : ℕ) (s : State World)
        → st.terminated ≡ none
        → st.running ≡ some t
        → C.now s.world < t + 2 ^ 63
        → Ends st s (check_running C fraction n timeout (some t))
    unfolding check_running ◌>>=◌ now
    check_running-Ends st t s alive started near =
        let exact = is_overdue-exact fraction (C.now s.world) t d timeout parsed small near in
        elim (Bool-cases (ltb (t + (d + 2 * minute)) (C.now s.world))) [
          | inl late ↦ (
            some "CertSuiteTimeout",
            timed_out t alive started (ground (arith, late)),
            rw (exact ∙ late) refl,
          )
          | inr early ↦
              (none, running t alive started (ground (arith, early)), rw (exact ∙ early) refl)
        ]

    exit-Ends :
        (st : ContainerState) (code : ℤ) (s : State World)
        → st.terminated ≡ some code
        → Ends st s (end_with_phase C fraction n (phase_of_exit code))
    unfolding phase_of_exit
    exit-Ends st (pos zero) s e = (some "CertSuiteFinished", finished e, refl)
    exit-Ends st (pos (suc m)) s e =
        (some "CertSuiteError", failed (pos (suc m)) e (λ q. ground arith), refl)
    exit-Ends st (negsuc m) s e =
        (some "CertSuiteError", failed (negsuc m) e (λ q. ground arith), refl)

    container-Ends :
        (st : ContainerState) (s : State World)
        → (st.terminated ≡ none → st.running ≢ none)
        → ((t : ℕ) → st.running ≡ some t → C.now s.world < t + 2 ^ 63)
        → Ends st s (check_container C fraction n timeout st)
    unfolding check_container
    container-Ends st s started near = elim (Option-cases st.terminated) [
      | inl alive ↦ elim (Option-cases st.running) [
        | inl waiting ↦ absurd (started alive waiting)
        | inr (t, e) ↦
            let opened : check_container C fraction n timeout st
                ≡ check_running C fraction n timeout (some t) =
              rw (alive, check_container) (ap (check_running C fraction n timeout) e) in
            subst (Ends st s) (sym opened) (check_running-Ends st t s alive e (near t e))
      ]
      | inr (code, e) ↦
          let opened : check_container C fraction n timeout st
              ≡ end_with_phase C fraction n (phase_of_exit code) =
            rw (e, check_container) refl in
          subst (Ends st s) (sym opened) (exit-Ends st code s e)
    ]

    pod-Ends :
        (m : NamespacedName) (pod : Pod) (st : ContainerStatus) (s : State World)
        → Aligned pod.container_statuses pod.containers
        → find_named cnf_cert_suite_container_name pod.container_statuses ≡ some st
        → (st.state.terminated ≡ none → st.state.running ≢ none)
        → ((t : ℕ) → st.state.running ≡ some t → C.now s.world < t + 2 ^ 63)
        → Ends st.state s (check_pod C fraction n m timeout pod)
    unfolding check_pod ◌>>=◌
    pod-Ends m pod st s aligned named started near =
        rw (get_container_status-Aligned pod cnf_cert_suite_container_name aligned ∙ ap ok named)
          (container-Ends st.state s started near)

  -- The suite's container is running, or has terminated; the clock is within 292 years of its
  -- start, the timeout is read as `d` nanoseconds, and `d` and two minutes are in the range of
  -- `int64`. The pod's statuses are in the order of its containers. Then exit code 0 writes
  -- CertSuiteFinished, any other exit code CertSuiteError, a container that runs for longer than
  -- the timeout and two minutes CertSuiteTimeout, and otherwise nothing is written and the
  -- request comes back in ten seconds.
  pub handle_end_of_cnf_cert_suite_run-EndsAs :
      (pod_name : String) (s : State World) (w : World) (pod : Pod) (st : ContainerStatus)
      → parse_duration fraction timeout ≡ some (pos d)
      → d + 2 * minute < 2 ^ 63
      → C.get_pod (record { namespace = n.namespace; name = pod_name }) s.world ≡ (found pod, w)
      → Aligned pod.container_statuses pod.containers
      → find_named cnf_cert_suite_container_name pod.container_statuses ≡ some st
      → (st.state.terminated ≡ none → st.state.running ≢ none)
      → ((t : ℕ) → st.state.running ≡ some t → C.now w < t + 2 ^ 63)
      → (phase : Option String) × EndsAs (C.now w) d st.state phase
        × (handle_end_of_cnf_cert_suite_run C fraction n.name pod_name n.namespace timeout s
            ≡ writes phase (record s {
              calls =
                  s.calls
                  ++ Call.get_pod (record { namespace = n.namespace; name = pod_name }) ∷ [];
              world = w;
            }))
  unfolding handle_end_of_cnf_cert_suite_run ◌>>=◌ get_pod
  handle_end_of_cnf_cert_suite_run-EndsAs pod_name s w pod st parsed small answer aligned named
        started near =
      rw answer (pod-Ends parsed small _ pod st _ aligned named started near)
