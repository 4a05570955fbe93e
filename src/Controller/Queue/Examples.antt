-- ===== src/Controller/Queue/Examples.antt =====
-- A run that is created and served once: its request stays in the queue.
use cnf_certsuite_operator.Prelude.{
  ◌≡◌, refl, sym, ap, some_inj, ◌∙◌, inl, true, none, some, arith, eq_iff,
}
use cnf_certsuite_operator.Prelude.Dict.{lookup}
use cnf_certsuite_operator.Controller.State.{State, NamespacedName_eq}
use cnf_certsuite_operator.Controller.Reconcile.{reconcile}
use cnf_certsuite_operator.Controller.Events.{ignore_update_in_certsuite_run}
use cnf_certsuite_operator.Controller.RunPod.Examples.{sample_run}
use cnf_certsuite_operator.Controller.Life.{name_of}
use cnf_certsuite_operator.Controller.Life.Started.{running, reconcile-Started}
use cnf_certsuite_operator.Controller.Life.Memory.{Objects, objects, object_store}
use cnf_certsuite_operator.Controller.Life.Examples.{
  new_run, req, no_fraction, emptied, after_start, first_pod, new_run_there, new_pod_free,
}
use cnf_certsuite_operator.Controller.Queue.{still, Unfinished}
use cnf_certsuite_operator.Controller.Queue.Kept.{
  Watch, begins, created, served, Ready, Watch-queued,
}

abbrev before_run : State Objects
before_run = record new_run { world = emptied }

no_run : object_store.run_of req emptied ≡ none
unfolding lookup
no_run = refl

new_run-Watch : Watch objects object_store no_fraction req new_run true
unfolding ignore_update_in_certsuite_run
new_run-Watch = created new_run.world (begins before_run no_run)

new_run-Ready : Ready objects object_store no_fraction req new_run
new_run-Ready = record {
  named = λ r there. ap name_of (some_inj (sym there ∙ new_run_there));
  free = λ r there no_pod. new_pod_free;
}

run_stored : object_store.run_of req after_start.world ≡ some (running sample_run first_pod)
run_stored =
    (reconcile-Started objects object_store no_fraction req sample_run new_run new_run_there refl
      (inl refl) new_pod_free).run_is

run_waits : Unfinished (running sample_run first_pod)
run_waits = (
  λ e. ground (arith, eq_iff "CertSuiteRunning" "CertSuiteFinished"),
  λ e. ground (arith, eq_iff "CertSuiteRunning" "CertSuiteError"),
)

Watch-queued_example : still (reconcile objects no_fraction req new_run).0 ≡ true
Watch-queued_example =
    Watch-queued objects object_store no_fraction req (served new_run-Watch new_run-Ready)
      (running sample_run first_pod) run_stored run_waits
