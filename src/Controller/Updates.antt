-- ===== src/Controller/Updates.antt =====
-- The resources that internal/controller/certsuiterun_controller.go sends back in its status
-- updates.
use mathlib.Core.List.{append-nil, append_assoc}
use cnf_certsuite_operator.Prelude.{
  ℕ, String, ◌≡◌, refl, sym, ap, ◌∙◌, true, some, List, [], ◌∷◌, ◌++◌, All, All-append,
}
use cnf_certsuite_operator.Pod.{Pod}
use cnf_certsuite_operator.Api.{NamespacedName, CertsuiteRun, CertsuiteRunStatus}
use cnf_certsuite_operator.Controller.Cluster.{Cluster, Answer, Call, found, failure}
use cnf_certsuite_operator.Controller.State.{
  State, NamespacedName_eq, get_run, get_pod, create_pod, delete_pod, now,
}
use cnf_certsuite_operator.Controller.Status.{
  write_status, set_status, update_status, update_status_phase,
}
use cnf_certsuite_operator.Controller.Reconcile.{pod_name_of}
use cnf_certsuite_operator.Action.{Leads}
use cnf_certsuite_operator.Controller.Cluster.{Attempts-keep}
use cnf_certsuite_operator.Controller.EndOfRun.Refused.{is_one_of}

abbrev updates_of : Call → List CertsuiteRun
updates_of (Call.update_run_status r) = r ∷ []
updates_of _ = []

-- The resources sent, in the order of the calls.
unfoldable pub updates : List Call → List CertsuiteRun
updates [] = []
updates (c ∷ cs) = updates_of c ++ updates cs

updates-append : (cs : List Call) (c : Call) → updates (cs ++ c ∷ []) ≡ updates cs ++ updates_of c
unfolding updates
updates-append [] c = append-nil (updates_of c)
updates-append (d ∷ cs) c =
    ap (λ l. updates_of d ++ l) (updates-append cs c)
    ∙ sym (append_assoc (updates_of d) (updates cs) (updates_of c))

abbrev pub phases : List String
phases =
    "CertSuiteDeploying" ∷ "CertSuiteDeployError" ∷ "CertSuiteFinished" ∷ "CertSuiteError"
    ∷ "CertSuiteTimeout" ∷ []

-- A resource that the cluster has returned, with one of the phases, or with the phase of a
-- started run and a pod name, and otherwise as it was returned.
pub data Update (C : Cluster) : CertsuiteRun → Type 0 where
  phase_only :
      (n : NamespacedName) (w : C.World) (r : CertsuiteRun) (phase : String)
      → (C.get_run n w).0 ≡ found r
      → is_one_of phase phases ≡ true
      → Update C (record r { status = record r.status { phase = phase } })
  started :
      (n : NamespacedName) (w : C.World) (r : CertsuiteRun) (id : ℕ)
      → (C.get_run n w).0 ≡ found r
      → Update C (record r {
        status = record r.status {
          phase = "CertSuiteRunning";
          cnf_cert_suite_pod_name = some (pod_name_of id);
        };
      })

module _ (C : Cluster) where
  open C use {World}

  abbrev pub Sound : State World → Type 0
  Sound s = All (Update C) (updates s.calls)

  Sound-call :
      (cs : List Call) (c : Call)
      → All (Update C) (updates_of c)
      → All (Update C) (updates cs)
      → All (Update C) (updates (cs ++ c ∷ []))
  Sound-call cs c hc h =
      rw (updates-append cs c) (All-append (Update C) (updates cs) (updates_of c) h hc)

  pub get_run-Sound : (n : NamespacedName) → Leads Sound Sound (get_run C n)
  unfolding get_run
  get_run-Sound n = record { at = λ s h. Sound-call s.calls _ tt h }

  pub get_pod-Sound : (n : NamespacedName) → Leads Sound Sound (get_pod C n)
  unfolding get_pod
  get_pod-Sound n = record { at = λ s h. Sound-call s.calls _ tt h }

  pub create_pod-Sound : (p : Pod) → Leads Sound Sound (create_pod C p)
  unfolding create_pod
  create_pod-Sound p = record { at = λ s h. Sound-call s.calls _ tt h }

  pub delete_pod-Sound : (n : NamespacedName) → Leads Sound Sound (delete_pod C n)
  unfolding delete_pod
  delete_pod-Sound n = record { at = λ s h. Sound-call s.calls _ tt h }

  pub now-Sound : Leads Sound Sound (now C)
  unfolding now
  now-Sound = record { at = λ s h. h }

  module _ (n : NamespacedName) (f : CertsuiteRunStatus → CertsuiteRunStatus)
      (good : (w : World) (r : CertsuiteRun)
        → (C.get_run n w).0 ≡ found r
        → Update C (record r { status = f r.status })) where
    write_status-Sound :
        (w : World) (a : Answer CertsuiteRun) (s : State World)
        → (C.get_run n w).0 ≡ a
        → Sound s
        → Sound (write_status C f a s).1
    unfolding write_status
    write_status-Sound w (failure e) s read h = h
    write_status-Sound w (found r) s read h = Sound-call s.calls _ (good w r read, tt) h

    set_status-Sound : (s : State World) → Sound s → Sound (set_status C n f s).1
    unfolding set_status
    set_status-Sound s h = write_status-Sound s.world _ _ refl (Sound-call s.calls _ tt h)

    pub update_status-Sound : Leads Sound Sound (update_status C n f)
    unfolding update_status
    update_status-Sound = record {
      at = λ s h.
          Attempts-keep Sound (set_status C n f) set_status-Sound
            (C.retry_attempts (State World) (set_status C n f) s) h;
    }

  pub update_status_phase-Sound :
      (n : NamespacedName) (phase : String)
      → is_one_of phase phases ≡ true
      → Leads Sound Sound (update_status_phase C n phase)
  unfolding update_status_phase
  update_status_phase-Sound n phase one =
      update_status-Sound n _ (λ w r read. phase_only n w r phase read one)
