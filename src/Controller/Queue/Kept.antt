-- ===== src/Controller/Queue/Kept.antt =====
-- No run is forgotten by internal/controller/certsuiterun_controller.go, in a cluster that stores what it is
-- sent: while it is unfinished, its request is in the queue.
use mathlib.Core.Path.{subst}
use cnf_certsuite_operator.Prelude.{
  ℕ, String, ◌≡◌, ◌≢◌, ◌⊎◌, refl, sym, ap, ◌∙◌, inl, inr, Bool, true, false, ◌||◌, Option, none,
  some, [], ◌∷◌, ◌++◌, arith, Bool-cases, Option-cases, str_eq, eq_iff,
}
use cnf_certsuite_operator.Action.{bind_ok}
use cnf_certsuite_operator.Api.{NamespacedName, CertsuiteRun}
use cnf_certsuite_operator.Controller.Cluster.{Cluster, Call}
use cnf_certsuite_operator.Controller.State.{State, NamespacedName_eq, next_int, get_run}
use cnf_certsuite_operator.Controller.EndOfRun.{handle_end_of_cnf_cert_suite_run}
use cnf_certsuite_operator.Controller.Reconcile.{pod_name_of, handle_answer, handle_run, reconcile}
use cnf_certsuite_operator.Controller.Registry.{HasNoPod}
use cnf_certsuite_operator.Controller.Events.{
  Event, create_event, update_event, delete_event, ignore_update_in_certsuite_run, passes,
}
use cnf_certsuite_operator.Controller.Life.{Store, name_of, get_run-Stored}
use cnf_certsuite_operator.Controller.Life.Started.{reconcile-Started}
use cnf_certsuite_operator.Controller.Life.Ended.{handle_run-named}
use cnf_certsuite_operator.Controller.Queue.Missing.{missing_runs}
use cnf_certsuite_operator.Controller.Queue.Others.{Named, reconcile-other}
use cnf_certsuite_operator.Controller.Queue.{
  still, Unfinished, Stays, handle_end_of_cnf_cert_suite_run-Stays,
}

absent : {o : Option CertsuiteRun} {r : CertsuiteRun} → o ≡ none → o ≡ some r → ⊥
absent e h = cc

-- A resource names its pod, or it does not.
pod_cases :
    (r : CertsuiteRun)
    → HasNoPod r ⊎ ((name : String) × (r.status.cnf_cert_suite_pod_name ≡ some name) × (name ≢ ""))
pod_cases r = elim (Option-cases r.status.cnf_cert_suite_pod_name) [
  | inl unset ↦ inl (inl unset)
  | inr (name, e) ↦ elim (Bool-cases (str_eq name "")) [
    | inl blank ↦ inl (inr (e ∙ ap some ((eq_iff name "").0 blank)))
    | inr named ↦ inr (name, e, λ b. ground (arith, eq_iff name ""))
  ]
]

module _ (C : Cluster) (D : Store C) (fraction : ℕ → ℕ → ℕ → ℕ) (req : NamespacedName) where
  open C use {World}

  -- The stored resource has the request's name, and where it has no pod the next pod's name is free.
  pub record Ready (s : State World) : Type 0 where
    pub named : (r : CertsuiteRun) → D.run_of req s.world ≡ some r → name_of r ≡ req
    pub free :
        (r : CertsuiteRun)
        → D.run_of req s.world ≡ some r
        → HasNoPod r
        → D.pod_of
            (record {
              namespace = req.namespace;
              name = pod_name_of (next_int s.cert_suite_pod_id);
            })
            s.world
          ≡ none

  watched :
      (r : CertsuiteRun) (name : String) (s : State World)
      → D.run_of req s.world ≡ some r
      → name_of r ≡ req
      → r.status.cnf_cert_suite_pod_name ≡ some name
      → name ≢ ""
      → Stays C D fraction req (reconcile C fraction req s)
  unfolding reconcile handle_answer
  watched r name s there named e nonempty =
      let s1 : State World = record s { calls = s.calls ++ Call.get_run req ∷ [] } in
      let whole : reconcile C fraction req s
          ≡ handle_end_of_cnf_cert_suite_run C fraction r.name name r.namespace r.spec.time_out s1 =
        bind_ok (get_run C req) _ (get_run-Stored C D req s r there)
        ∙ ap (λ (o : Option String). handle_run C fraction req r o s1) e
        ∙ handle_run-named C D fraction req r name s1 nonempty in
      subst (Stays C D fraction req) (sym whole) (
        handle_end_of_cnf_cert_suite_run-Stays C D fraction req r r.spec.time_out named name s1
          there)

  reconcile-Stays :
      (s : State World) → Ready s → Stays C D fraction req (reconcile C fraction req s)
  reconcile-Stays s ready = elim (Option-cases (D.run_of req s.world)) [
    | inl missing ↦ λ r there unfinished.
        absurd (absent (missing_runs C D fraction req req s missing ∙ missing) there)
    | inr (r, there) ↦ elim (pod_cases r) [
      | inl no_pod ↦ λ r' there' unfinished.
          let started =
            reconcile-Started C D fraction req r s there (ready.named r there) no_pod
              (ready.free r there no_pod) in
          rw started.returned refl
      | inr (name, e, nonempty) ↦ watched r name s there (ready.named r there) e nonempty
    ]
  ]

  -- Whether the request is in the queue behind an event of its resource.
  abbrev pub makes : Event → Bool → Bool
  makes e queued = passes ignore_update_in_certsuite_run e || queued

  -- The states of the process and the cluster, with whether the request is in the queue. Requests for
  -- other runs are handled in between. `changed` is any other change in the cluster: it makes no
  -- finished or missing run an unfinished one.
  pub data Watch : State World → Bool → Type 0 where
    begins : (s : State World) → D.run_of req s.world ≡ none → Watch s false
    created :
        {s : State World} {queued : Bool} (w : World)
        → Watch s queued
        → Watch (record s { world = w }) (makes (create_event req) queued)
    changed :
        {s : State World} {queued : Bool} (w : World)
        → Watch s queued
        → ((r : CertsuiteRun)
            → D.run_of req w ≡ some r
            → Unfinished r
            → (r' : CertsuiteRun) × (D.run_of req s.world ≡ some r') × Unfinished r')
        → Watch (record s { world = w }) (makes (update_event req) queued)
    removed :
        {s : State World} {queued : Bool} (w : World)
        → Watch s queued
        → D.run_of req w ≡ none
        → Watch (record s { world = w }) (makes (delete_event req) queued)
    served :
        {s : State World}
        → Watch s true
        → Ready s
        → Watch (reconcile C fraction req s).1 (still (reconcile C fraction req s).0)
    other_served :
        {s : State World} {queued : Bool} (other : NamespacedName) (differ : other ≢ req)
        → Watch s queued
        → Named C D req other differ s.world
        → Watch (reconcile C fraction other s).1 queued

  -- In a cluster that stores what it is sent and whose API server enforces the enumeration of phases,
  -- from a state without the resource on, and through any creations and deletions of it, requests for
  -- it, requests for other runs, and other changes in the cluster that make no finished or missing run
  -- an unfinished one; while the stored resources have the names of their requests, and the next pod's
  -- name is free at each request for the run without a pod: as long as the run is stored and in
  -- neither of the phases CertSuiteFinished and CertSuiteError, its request is in the queue, though no
  -- update of the resource puts it there.
  pub Watch-queued :
      {s : State World} {queued : Bool}
      → Watch s queued
      → (r : CertsuiteRun) → D.run_of req s.world ≡ some r
      → Unfinished r
      → queued ≡ true
  unfolding ignore_update_in_certsuite_run
  Watch-queued (begins s missing) r there unfinished = absurd (absent missing there)
  Watch-queued (created w before) r there unfinished = refl
  Watch-queued (changed w before same) r there unfinished =
      let (r', there', unfinished') = same r there unfinished in
      Watch-queued before r' there' unfinished'
  Watch-queued (removed w before missing) r there unfinished = refl
  Watch-queued (served {s = s} before ready) r there unfinished =
      reconcile-Stays s ready r there unfinished
  Watch-queued (other_served {s = s} other differ before named) r there unfinished =
      Watch-queued before r (sym (reconcile-other C D req other differ fraction s named) ∙ there)
        unfinished
