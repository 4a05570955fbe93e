-- ===== src/Controller/Returns.antt =====
-- What `Reconcile` of internal/controller/certsuiterun_controller.go returns for a run that is
-- read and has no pod.
use mathlib.Core.Path.{subst}
use cnf_certsuite_operator.Prelude.{
  arith, ℕ, ◌*◌, String, ◌≡◌, refl, sym, ◌⊎◌, inl, inr, Option, none, some,
}
use cnf_certsuite_operator.Duration.{second}
use cnf_certsuite_operator.Go.{Error, Result, ok}
use cnf_certsuite_operator.Pod.{Pod}
use cnf_certsuite_operator.Api.{NamespacedName, CertsuiteRun, CertsuiteRunStatus}
use cnf_certsuite_operator.Controller.RunPod.Launch.{new-job_options}
use cnf_certsuite_operator.Controller.Cluster.{Cluster, found}
use cnf_certsuite_operator.Controller.State.{
  State, M, NamespacedName_eq, ◌>>=◌, continue, return, get_run, create_pod,
}
use cnf_certsuite_operator.Controller.Status.{update_status, update_status_phase}
use cnf_certsuite_operator.Controller.EndOfRun.{CtrlResult}
use cnf_certsuite_operator.Controller.Reconcile.{
  deploy_error, set_running, launch_pod, launch_after, start_run, handle_answer, handle_run,
  register_run, reconcile,
}
use cnf_certsuite_operator.Controller.Registry.{HasNoPod}

-- Without an error: at once, or with a return of the request in ten seconds.
abbrev pub Returned : Result CtrlResult → Type 0
Returned r =
    (r ≡ ok (record { requeue_after = 0 })) ⊎ (r ≡ ok (record { requeue_after = 10 * second }))

-- What an action gives from every state.
record Gives {W A : Type 0} (P : Result A → Type 0) (m : M W A) : Type 0 where
  at : (s : State W) → P (m s).0

abbrev IsOk : {A : Type 0} → Result A → Type 0
IsOk {A = A} r = (a : A) × (r ≡ ok a)

Gives-return :
    {W A : Type 0} {P : Result A → Type 0} (a : A) → P (ok a) → Gives {W = W} P (return a)
unfolding return
Gives-return a h = record { at = λ s. h }

-- After an action that returns, the rest decides.
Gives-bind :
    {W A B : Type 0} {P : Result B → Type 0} (m : M W A) (f : A → M W B)
    → Gives IsOk m
    → ((a : A) → Gives P (f a))
    → Gives P (m >>= f)
unfolding ◌>>=◌
Gives-bind {P = P} m f hm hf = record {
  at = λ s.
      let (a, e) = hm.at s in subst (λ r. P (continue r f (m s).1).0) (sym e) ((hf a).at (m s).1);
}

at_once : Returned (ok (record { requeue_after = 0 }))
at_once = inl refl

in_ten_seconds : Returned (ok (record { requeue_after = 10 * second }))
in_ten_seconds = inr refl

module _ (C : Cluster) (fraction : ℕ → ℕ → ℕ → ℕ) (req : NamespacedName) where
  open C use {World}

  update_status-IsOk :
      (f : CertsuiteRunStatus → CertsuiteRunStatus) → Gives IsOk (update_status C req f)
  unfolding update_status
  update_status-IsOk f = record { at = λ s. (_, refl) }

  create_pod-IsOk : (pod : Pod) → Gives IsOk (create_pod C pod)
  unfolding create_pod
  create_pod-IsOk pod = record { at = λ s. (_, refl) }

  set_running-Returned : (pod_name : String) → Gives Returned (set_running C fraction req pod_name)
  unfolding set_running
  set_running-Returned pod_name =
      Gives-bind _ _ (update_status-IsOk _)
        (elim [ none ↦ Gives-return _ in_ten_seconds | some x ↦ Gives-return _ at_once ])

  deploy_error-Returned : Gives Returned (deploy_error C fraction req)
  unfolding deploy_error update_status_phase
  deploy_error-Returned = Gives-bind _ _ (update_status-IsOk _) (λ e. Gives-return _ at_once)

  launch_pod-Returned :
      (pod_name : String) (pod : Pod) → Gives Returned (launch_pod C fraction req pod_name (ok pod))
  unfolding launch_pod
  launch_pod-Returned pod_name pod =
      Gives-bind _ _ (create_pod-IsOk pod)
        (elim [ none ↦ set_running-Returned pod_name | some x ↦ deploy_error-Returned ])

  launch_after-Returned :
      (run_cr : CertsuiteRun) (pod_name : String) (e : Option Error)
      → Gives Returned (launch_after C fraction req run_cr pod_name e)
  unfolding launch_after
  launch_after-Returned run_cr pod_name (some x) = Gives-return _ at_once
  launch_after-Returned run_cr pod_name none = record {
    at = λ s.
        let (pod, built, launches) =
          new-job_options s.side_car_image pod_name req.namespace run_cr in
        rw built ((launch_pod-Returned pod_name pod).at s);
  }

  start_run-Returned : (run_cr : CertsuiteRun) → Gives Returned (start_run C fraction req run_cr)
  unfolding start_run register_run update_status_phase
  start_run-Returned run_cr =
      Gives-bind _ _ (record { at = λ s. (_, refl) })
        λ pod_name. Gives-bind _ _ (update_status-IsOk _) (launch_after-Returned run_cr pod_name)

  handle_run-Returned :
      (run_cr : CertsuiteRun) (pod_name : Option String) (s : State World)
      → (pod_name ≡ none) ⊎ (pod_name ≡ some "")
      → Returned (handle_run C fraction req run_cr pod_name s).0
  unfolding handle_run
  handle_run-Returned run_cr none s h = (start_run-Returned run_cr).at s
  handle_run-Returned run_cr (some p) s (inl e) = cc
  handle_run-Returned run_cr (some p) s (inr e) =
      let blank : p ≡ "" = ground (arith, e) in rw blank ((start_run-Returned run_cr).at s)

  -- When the resource is read and names no pod, the request never fails and never panics,
  -- whichever of the calls that start the run fail: it is done, or it comes back in ten seconds.
  pub reconcile-Returned :
      (s : State World) (w : World) (run_cr : CertsuiteRun)
      → C.get_run req s.world ≡ (found run_cr, w)
      → HasNoPod run_cr
      → Returned (reconcile C fraction req s).0
  unfolding reconcile handle_answer ◌>>=◌ get_run
  reconcile-Returned s w run_cr read no_pod =
      rw read (handle_run-Returned run_cr run_cr.status.cnf_cert_suite_pod_name _ no_pod)
