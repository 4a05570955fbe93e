-- ===== src/Controller/Queue/Missing.antt =====
-- A request of internal/controller/certsuiterun_controller.go for a resource that is not there changes no
-- resource, in a cluster that stores what it is sent.
use cnf_certsuite_operator.Prelude.{ℕ, String, ◌≡◌, refl, Option, none, some, [], ◌∷◌, ◌++◌}
use cnf_certsuite_operator.Prelude.Dict.{lookup}
use cnf_certsuite_operator.Go.{Error}
use cnf_certsuite_operator.Api.{NamespacedName}
use cnf_certsuite_operator.Controller.Cluster.{Cluster, Call}
use cnf_certsuite_operator.Controller.State.{State, NamespacedName_eq, ◌>>=◌, get_run, delete_pod}
use cnf_certsuite_operator.Controller.Reconcile.{
  forget_found, forget_run, handle_get_error, handle_answer, reconcile,
}
use cnf_certsuite_operator.Controller.Registry.{forget_found_ok, return_ignoring_not_found_same}
use cnf_certsuite_operator.Controller.Life.{Store}

-- The request is for `req`; `n` names any resource.
module _ (C : Cluster) (D : Store C) (fraction : ℕ → ℕ → ℕ → ℕ) (req n : NamespacedName) where
  open C use {World}

  forget_found_runs :
      (name : Option String) (s : State World)
      → D.run_of n (forget_found C fraction req name s).1.world ≡ D.run_of n s.world
  unfolding forget_found delete_pod
  forget_found_runs none s = refl
  forget_found_runs (some name) s = D.delete-runs _ n s.world

  handle_get_error_runs :
      (e : Error) (s : State World)
      → D.run_of n (handle_get_error C fraction req e s).1.world ≡ D.run_of n s.world
  unfolding handle_get_error forget_run ◌>>=◌
  handle_get_error_runs e s =
      rw (forget_found_ok C fraction req (lookup req s.certification_runs) s) (
        rw (return_ignoring_not_found_same C fraction req e)
          (forget_found_runs (lookup req s.certification_runs) s))

  pub missing_runs :
      (s : State World)
      → D.run_of req s.world ≡ none
      → D.run_of n (reconcile C fraction req s).1.world ≡ D.run_of n s.world
  unfolding reconcile ◌>>=◌ get_run handle_answer
  missing_runs s missing =
      let (e, answer) = D.get_run-missing req s.world missing in
      rw answer (handle_get_error_runs e (record s { calls = s.calls ++ Call.get_run req ∷ [] }))
