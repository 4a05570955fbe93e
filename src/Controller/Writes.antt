-- ===== src/Controller/Writes.antt =====
-- Every action of internal/controller/certsuiterun_controller.go sends back only what it has
-- read, apart from the phase and the pod's name.
use cnf_certsuite_operator.Prelude.{ℕ, String, Option, none, some, All}
use cnf_certsuite_operator.Go.{
  Error, api, errorf, not_found, already_exists, conflict, invalid, other_reason,
}
use cnf_certsuite_operator.Api.{NamespacedName}
use cnf_certsuite_operator.Controller.Cluster.{Cluster, found, failure}
use cnf_certsuite_operator.Controller.State.{setup_with_manager, State, M, NamespacedName_eq}
use cnf_certsuite_operator.Controller.Reconcile.{
  forget_found, forget_run, return_ignoring_not_found, handle_get_error, handle_answer, reconcile,
}
use cnf_certsuite_operator.Controller.Keeps.{Keeping, handle_run-Keeps}
use cnf_certsuite_operator.Action.{Leads, Leads-return, Leads-fail, Leads-bind}
use cnf_certsuite_operator.Controller.Reached.{Reach, start, request, elsewhere}
use cnf_certsuite_operator.Controller.Updates.{
  updates, Update, started, Sound, get_run-Sound, get_pod-Sound, create_pod-Sound, delete_pod-Sound,
  now-Sound, update_status-Sound, update_status_phase-Sound,
}

module _ (C : Cluster) (fraction : ℕ → ℕ → ℕ → ℕ) where
  open C use {World}

  abbrev Keeps : {A : Type 0} → M World A → Type 0
  Keeps m = Leads (Sound C) (Sound C) m

  updates-Keeping : Keeping C (Sound C) (λ n. Unit)
  updates-Keeping = record {
    get_pod-P = get_pod-Sound C;
    create_pod-P = create_pod-Sound C;
    now-P = now-Sound C;
    registered-P = λ s runs id h. h;
    phase-P = λ n phase good one. update_status_phase-Sound C n phase one;
    running-P = λ n id good. update_status-Sound C n _ (λ w r read. started n w r id read);
  }

  forget_found-Keeps :
      (req : NamespacedName) (name : Option String) → Keeps (forget_found C fraction req name)
  unfolding forget_found
  forget_found-Keeps req none = record { at = λ s h. h }
  forget_found-Keeps req (some name) = record { at = λ s h. (delete_pod-Sound C _).at s h }

  return_ignoring_not_found-Keeps : (e : Error) → Keeps (return_ignoring_not_found C fraction e)
  unfolding return_ignoring_not_found
  return_ignoring_not_found-Keeps (api not_found text) = Leads-return _ _
  return_ignoring_not_found-Keeps (api already_exists text) = Leads-fail _ _
  return_ignoring_not_found-Keeps (api conflict text) = Leads-fail _ _
  return_ignoring_not_found-Keeps (api invalid text) = Leads-fail _ _
  return_ignoring_not_found-Keeps (api other_reason text) = Leads-fail _ _
  return_ignoring_not_found-Keeps (errorf text) = Leads-fail _ _

  reconcile-Keeps : (req : NamespacedName) → Keeps (reconcile C fraction req)
  unfolding reconcile handle_answer handle_get_error forget_run
  reconcile-Keeps req = Leads-bind _ _ (get_run-Sound C req) (elim [
    | found run_cr ↦
        handle_run-Keeps C fraction updates-Keeping req tt run_cr
          run_cr.status.cnf_cert_suite_pod_name tt
    | failure e ↦
        Leads-bind _ _ (record { at = λ s h. (forget_found-Keeps req _).at s h })
          (λ _. return_ignoring_not_found-Keeps e)
  ])

  -- Over the whole life of the process, whatever fails and however often an update is retried,
  -- each resource that is sent back in a status update is one that the cluster returned,
  -- unchanged but for a phase of the run, or for the phase CertSuiteRunning with a pod name that
  -- the process makes: neither its specification nor a report is written.
  pub Reach-Update :
      {n : ℕ} {s : State World} → Reach C fraction n s → All (Update C) (updates s.calls)
  unfolding updates setup_with_manager
  Reach-Update (start image w) = tt
  Reach-Update (request {s = s} req before) = (reconcile-Keeps req).at s (Reach-Update before)
  Reach-Update (elsewhere w before) = Reach-Update before
