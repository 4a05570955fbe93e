-- ===== src/Controller/Queue/Others.antt =====
-- A request of internal/controller/certsuiterun_controller.go for one run leaves the resource of every other
-- run as it is, in a cluster that stores what it is sent.
use mathlib.Core.Path.{subst}
use cnf_certsuite_operator.Prelude.{
  ℕ, ◌≡◌, ◌≢◌, refl, sym, ap, ◌∙◌, inl, inr, Option, some, some_inj, [], ◌∷◌, ◌++◌, Bool-cases,
  Option-cases,
}
use cnf_certsuite_operator.Action.{Leads, bind_ok}
use cnf_certsuite_operator.Pod.{Pod}
use cnf_certsuite_operator.Api.{NamespacedName, CertsuiteRun, CertsuiteRunStatus, allowed_phases}
use cnf_certsuite_operator.Controller.Cluster.{Cluster, Call, Attempts-keep}
use cnf_certsuite_operator.Controller.State.{State, get_run, get_pod, create_pod, now}
use cnf_certsuite_operator.Controller.Status.{
  write_status, set_status, update_status, update_status_phase,
}
use cnf_certsuite_operator.Controller.EndOfRun.Refused.{is_one_of}
use cnf_certsuite_operator.Controller.Reconcile.{handle_answer, handle_run, reconcile}
use cnf_certsuite_operator.Controller.Keeps.{Keeping, handle_run-Keeps}
use cnf_certsuite_operator.Controller.Life.{Store, name_of, pod_key, get_run-Stored}
use cnf_certsuite_operator.Controller.Queue.Missing.{missing_runs}

module _ (C : Cluster) (D : Store C) (req other : NamespacedName) (differ : other ≢ req) where
  open C use {World}

  -- The other run's resource has its name.
  abbrev pub Named : World → Type 0
  Named w = (r : CertsuiteRun) → D.run_of other w ≡ some r → name_of r ≡ other

  module _ (o : Option CertsuiteRun) where
    -- The first run's resource is this one.
    abbrev Rests : State World → Type 0
    Rests s = Named s.world × (D.run_of req s.world ≡ o)

    rests_in :
        {v w : World} → v ≡ w → Named w × (D.run_of req w ≡ o) → Named v × (D.run_of req v ≡ o)
    rests_in e = subst (λ w. Named w × (D.run_of req w ≡ o)) (sym e)

    updated :
        (f : CertsuiteRunStatus → CertsuiteRunStatus) (r : CertsuiteRun) (w : World)
        → D.run_of other w ≡ some r
        → Named w × (D.run_of req w ≡ o)
        → let v = (C.update_run_status (record r { status = f r.status }) w).1 in
          Named v × (D.run_of req v ≡ o)
    updated f r w there (named, same) =
        let sent : CertsuiteRun = record r { status = f r.status } in
        let key = named r there in
        elim (Bool-cases (is_one_of (f r.status).phase allowed_phases)) [
          | inl allowed ↦
              let (fine, stored, pods) =
                D.update-stored sent r w (ap (λ n. D.run_of n w) key ∙ there) allowed in
              (
                (λ r' there'.
                    ap name_of (
                      some_inj (
                        sym there'
                        ∙ ap (λ n. D.run_of n (C.update_run_status sent w).1) (sym key)
                        ∙ stored))
                    ∙ key),
                D.update-others sent w req (λ e. differ (sym (e ∙ key))) ∙ same,
              )
          | inr outside ↦
              let (text, refused) = D.update-refused sent w outside in
              rests_in (ap (λ p. p.1) refused) (named, same)
        ]

    set_status-Rests :
        (f : CertsuiteRunStatus → CertsuiteRunStatus) (s : State World)
        → Rests s
        → Rests (set_status C other f s).1
    unfolding set_status write_status
    set_status-Rests f s h = elim (Option-cases (D.run_of other s.world)) [
      | inl missing ↦ let (e, answer) = D.get_run-missing other s.world missing in rw answer h
      | inr (r, there) ↦ rw (D.get_run-stored other s.world r there) (updated f r s.world there h)
    ]

    update_status-Rests :
        (n : NamespacedName) (f : CertsuiteRunStatus → CertsuiteRunStatus)
        → n ≡ other
        → Leads Rests Rests (update_status C n f)
    unfolding update_status
    update_status-Rests n f e =
        subst (λ m. Leads Rests Rests (update_status C m f)) (sym e)
          (record {
            at = λ s h.
                Attempts-keep Rests (set_status C other f) (set_status-Rests f)
                  (C.retry_attempts (State World) (set_status C other f) s) h;
          })

    create_pod-Rests : (p : Pod) → Leads Rests Rests (create_pod C p)
    unfolding create_pod
    create_pod-Rests p = record {
      at = λ s h. elim (Option-cases (D.pod_of (pod_key p) s.world)) [
        | inl free ↦
            let (fine, stored, runs) = D.create-stored p s.world free in
            ((λ r there. h.0 r (sym (runs other) ∙ there)), runs req ∙ h.1)
        | inr (q, taken) ↦
            let (text, refused) = D.create-taken p q s.world taken in
            rests_in (ap (λ x. x.1) refused) h
      ];
    }

    others-Keeping : Keeping C Rests (λ n. n ≡ other)
    unfolding get_pod now update_status_phase
    others-Keeping = record {
      get_pod-P = λ n. record { at = λ s h. rests_in (D.get_pod-same n s.world) h };
      create_pod-P = create_pod-Rests;
      now-P = record { at = λ s h. h };
      registered-P = λ s runs id h. h;
      phase-P = λ n phase e one. update_status-Rests n _ e;
      running-P = λ n id e. update_status-Rests n _ e;
    }

  pub reconcile-other :
      (fraction : ℕ → ℕ → ℕ → ℕ) (s : State World)
      → Named s.world
      → D.run_of req (reconcile C fraction other s).1.world ≡ D.run_of req s.world
  unfolding reconcile handle_answer
  reconcile-other fraction s named = elim (Option-cases (D.run_of other s.world)) [
    | inl missing ↦ missing_runs C D fraction other req s missing
    | inr (r, there) ↦
        let s1 : State World = record s { calls = s.calls ++ Call.get_run other ∷ [] } in
        let whole : reconcile C fraction other s
            ≡ handle_run C fraction other r r.status.cnf_cert_suite_pod_name s1 =
          bind_ok (get_run C other) _ (get_run-Stored C D other s r there) in
        ap (λ m. D.run_of req m.1.world) whole
        ∙ ((handle_run-Keeps C fraction (others-Keeping (D.run_of req s.world)) other refl r
              r.status.cnf_cert_suite_pod_name (named r there)).at
            s1 (named, refl)).1
  ]
