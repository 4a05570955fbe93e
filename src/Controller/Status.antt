-- ===== src/Controller/Status.antt =====
-- The status updates of internal/controller/certsuiterun_controller.go.
use cnf_certsuite_operator.Prelude.{String, Option, some, ◌++◌, ◌∷◌, []}
use cnf_certsuite_operator.Go.{Error, ok}
use cnf_certsuite_operator.Api.{NamespacedName, CertsuiteRun, CertsuiteRunStatus}
use cnf_certsuite_operator.Controller.Cluster.{Cluster, Answer, Call, found, failure}
use cnf_certsuite_operator.Controller.State.{State, M}

module _ (C : Cluster) where
  open C use {World}

  -- What is sent when the resource has been read.
  unfoldable pub write_status :
      (CertsuiteRunStatus → CertsuiteRunStatus)
      → Answer CertsuiteRun
      → State World
      → Option Error × State World
  write_status status_setter_fn (failure e) s = (some e, s)
  write_status status_setter_fn (found run_cr) s =
      let run_cr' : CertsuiteRun = record run_cr { status = status_setter_fn run_cr.status } in
      let (e, w) = C.update_run_status run_cr' s.world in
      (e, record s { calls = s.calls ++ Call.update_run_status run_cr' ∷ []; world = w })

  -- The function that is retried: the resource is read anew each time.
  unfoldable pub set_status :
      NamespacedName
      → (CertsuiteRunStatus → CertsuiteRunStatus)
      → State World
      → Option Error × State World
  unfolding write_status
  set_status namespaced_name status_setter_fn s =
      let (a, w) = C.get_run namespaced_name s.world in
      write_status status_setter_fn a
        (record s { calls = s.calls ++ Call.get_run namespaced_name ∷ []; world = w })

  -- The error of the last attempt, if any.
  unfoldable pub update_status :
      NamespacedName → (CertsuiteRunStatus → CertsuiteRunStatus) → M World (Option Error)
  unfolding set_status
  update_status namespaced_name status_setter_fn s =
      let (e, s') =
        C.retry_on_conflict (State World) (set_status namespaced_name status_setter_fn) s in
      (ok e, s')

  unfoldable pub update_status_phase : NamespacedName → String → M World (Option Error)
  unfolding update_status
  update_status_phase namespaced_name phase =
      update_status namespaced_name (λ status. record status { phase = phase })
