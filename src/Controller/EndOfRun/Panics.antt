-- ===== src/Controller/EndOfRun/Panics.antt =====
-- When `handleEndOfCnfCertSuiteRun` of internal/controller/certsuiterun_controller.go panics.
use cnf_certsuite_operator.Prelude.{
  some_inj, ℕ, String, ◌≡◌, ◌≢◌, ◌↔◌, ◌⊎◌, refl, sym, ap, inl, inr, Option, none, some, Bool-cases,
  Option-cases,
}
use cnf_certsuite_operator.Prelude.Int.{ℤ}
use cnf_certsuite_operator.Go.{
  Error, Result, Panic, ok, err, panic, nil_dereference, index_out_of_range, ok_inj,
}
use cnf_certsuite_operator.Definitions.{cnf_cert_suite_container_name}
use cnf_certsuite_operator.Pod.{Pod, ContainerState, ContainerStatus}
use cnf_certsuite_operator.Api.{NamespacedName, CertsuiteRunStatus}
use cnf_certsuite_operator.Controller.Cluster.{found_inj, Answer-cases, Cluster, found}
use cnf_certsuite_operator.Controller.State.{State, ◌>>=◌, lift, get_pod, now}
use cnf_certsuite_operator.Controller.Status.{set_status, update_status, update_status_phase}
use cnf_certsuite_operator.Controller.EndOfRun.Search.{
  panic_inj, Beside, Overruns, status_of-Overruns, status_of-Beside,
}
use cnf_certsuite_operator.Controller.EndOfRun.{
  get_container_status, is_overdue, end_with_phase, check_running, check_container, check_pod,
  phase_of_exit, handle_end_of_cnf_cert_suite_run,
}

pub Result-cases {ℓ} :
    {A : Type ℓ} (r : Result (Option A))
    → (r ≡ ok none)
      ⊎ (((a : A) × (r ≡ ok (some a)))
          ⊎ (((e : Error) × (r ≡ err e)) ⊎ ((p : Panic) × (r ≡ panic p))))
Result-cases (ok none) = inl refl
Result-cases (ok (some a)) = inr (inl (a, refl))
Result-cases (err e) = inr (inr (inl (e, refl)))
Result-cases (panic p) = inr (inr (inr (p, refl)))

module _ (C : Cluster) (fraction : ℕ → ℕ → ℕ → ℕ) (p : Panic) where
  open C use {World}

  end_with_phase-calm :
      (n : NamespacedName) (phase : String) (s : State World)
      → (end_with_phase C fraction n phase s).0 ≢ panic p
  unfolding end_with_phase ◌>>=◌ update_status_phase update_status set_status
  end_with_phase-calm n phase s =
      let set : CertsuiteRunStatus → CertsuiteRunStatus =
        λ status. record status { phase = phase } in
      elim (Option-cases (C.retry_on_conflict (State World) (set_status C n set) s).0) [
        | inl e ↦ rw e (λ h. cc)
        | inr (x, e) ↦ rw e (λ h. cc)
      ]

  -- The container neither runs nor has terminated.
  abbrev pub Waits : ContainerState → Type 0
  Waits st = (st.terminated ≡ none) × (st.running ≡ none) × (p ≡ nil_dereference)

  running-calm :
      (n : NamespacedName) (timeout : String) (t : ℕ) (s : State World)
      → (check_running C fraction n timeout (some t) s).0 ≢ panic p
  unfolding check_running ◌>>=◌ now
  running-calm n timeout t s = elim (Bool-cases (is_overdue fraction (C.now s.world) t timeout)) [
    | inl late ↦ rw late (end_with_phase-calm n _ s)
    | inr early ↦ rw early (λ h. cc)
  ]

  container-Waits :
      (n : NamespacedName) (timeout : String) (running : Option ℕ) (terminated : Option ℤ)
      (s : State World)
      → let st : ContainerState = record { running = running; terminated = terminated } in
        ((check_container C fraction n timeout st s).0 ≡ panic p) ↔ Waits st
  unfolding check_container check_running lift
  container-Waits n timeout none none s =
      ((λ h. (refl, refl, sym (panic_inj h))), (λ (e, f, q). ap panic (sym q)))
  container-Waits n timeout (some t) none s =
      ((λ h. absurd (running-calm n timeout t s h)), (λ (e, f, q). cc))
  container-Waits n timeout running (some code) s =
      ((λ h. absurd (end_with_phase-calm n (phase_of_exit code) s h)), (λ (e, f, q). cc))

  -- What the search answers when the call panics.
  abbrev Answered : Pod → Type 0
  Answered pod =
      (get_container_status pod cnf_cert_suite_container_name ≡ panic p)
      ⊎ ((st : ContainerStatus) × (get_container_status pod cnf_cert_suite_container_name
            ≡ ok (some st))
          × Waits st.state)

  pod-Answered :
      (n m : NamespacedName) (timeout : String) (pod : Pod) (s : State World)
      → ((check_pod C fraction n m timeout pod s).0 ≡ panic p) ↔ Answered pod
  unfolding check_pod ◌>>=◌
  pod-Answered n m timeout pod s =
      elim (Result-cases (get_container_status pod cnf_cert_suite_container_name)) [
        | inl e ↦ rw e ((λ h. cc), (λ c. elim c [ inl h ↦ cc | inr (st, h, w) ↦ cc ]))
        | inr (inl (st, e)) ↦
            let here = container-Waits n timeout st.state.running st.state.terminated s in
            rw e (
              (λ h. inr (st, refl, here.0 h)),
              (λ c. elim c [
                | inl h ↦ cc
                | inr (st', h, w) ↦ here.1 (rw (sym (some_inj (ok_inj h))) at w)
              ]),
            )
        | inr (inr (inl (x, e))) ↦
            rw e ((λ h. cc), (λ c. elim c [ inl h ↦ cc | inr (st, h, w) ↦ cc ]))
        | inr (inr (inr (q, e))) ↦ rw e (
          (λ h. inl (ap panic (panic_inj h))),
          (λ c. elim c [ inl h ↦ ap panic (panic_inj h) | inr (st, h, w) ↦ cc ]),
        )
      ]

  -- The pod's state that makes the call panic.
  abbrev pub Crashes : Pod → Type 0
  Crashes pod =
      ((p ≡ index_out_of_range)
        × Overruns cnf_cert_suite_container_name pod.container_statuses pod.containers)
      ⊎ ((st : ContainerStatus) × Beside cnf_cert_suite_container_name st pod.container_statuses
            pod.containers
          × Waits st.state)

  Answered-Crashes : (pod : Pod) → Answered pod ↔ Crashes pod
  unfolding get_container_status
  Answered-Crashes pod =
      let beyond =
        status_of-Overruns cnf_cert_suite_container_name p pod.container_statuses pod.containers in
      let beside = λ (st : ContainerStatus).
        status_of-Beside cnf_cert_suite_container_name st pod.container_statuses pod.containers in
      (
        (λ a. elim a [ inl h ↦ inl (beyond.0 h) | inr (st, h, w) ↦ inr (st, (beside st).0 h, w) ]),
        (λ c. elim c [ inl h ↦ inl (beyond.1 h) | inr (st, b, w) ↦ inr (st, (beside st).1 b, w) ]),
      )

  -- The end of a run panics exactly if the pod is read and one of two holds. Either the status at
  -- the place of the first container of the suite's name is of a container that neither runs nor has
  -- terminated, and the panic is a nil dereference; or the pod has more statuses than containers
  -- and no container of the suite's name, and the panic is an index out of range.
  pub handle_end_of_cnf_cert_suite_run-Crashes :
      (run_cr_name pod_name namespace timeout : String) (s : State World)
      → ((handle_end_of_cnf_cert_suite_run C fraction run_cr_name pod_name namespace timeout s).0
          ≡ panic p)
        ↔ ((pod : Pod) × ((C.get_pod (record { namespace = namespace; name = pod_name }) s.world).0
              ≡ found pod)
            × Crashes pod)
  unfolding handle_end_of_cnf_cert_suite_run ◌>>=◌ get_pod
  handle_end_of_cnf_cert_suite_run-Crashes run_cr_name pod_name namespace timeout s =
      elim (Answer-cases
        (C.get_pod (record { namespace = namespace; name = pod_name }) s.world).0) [
          | inl (e, read) ↦ rw read ((λ h. cc), (λ (pod, h, c). cc))
          | inr (pod, read) ↦
              let here =
                pod-Answered (record { namespace = namespace; name = run_cr_name })
                  (record { namespace = namespace; name = pod_name }) timeout pod _ in
              rw read (
                (λ h. (pod, refl, (Answered-Crashes pod).0 (here.0 h))),
                (λ (pod', h, c). here.1 ((Answered-Crashes pod).1 (rw (sym (found_inj h)) at c))),
              )
        ]
