-- ===== src/Controller/Life/Started.antt =====
-- The request of internal/controller/certsuiterun_controller.go that starts the pod of a new run.
use mathlib.Core.Path.{subst}
use cnf_certsuite_operator.Prelude.{
  ℕ, ◌*◌, String, ◌≡◌, refl, sym, ap, some_inj, ◌∙◌, inl, inr, Option, none, some, [], ◌∷◌, ◌++◌,
  arith, eq_iff,
}
use cnf_certsuite_operator.Go.{Result, ok}
use cnf_certsuite_operator.Duration.{second}
use cnf_certsuite_operator.Action.{bind_ok}
use cnf_certsuite_operator.Pod.{Pod}
use cnf_certsuite_operator.Api.{
  NamespacedName, CertsuiteRun, status_phase_cert_suite_deploying, status_phase_cert_suite_running,
}
use cnf_certsuite_operator.Controller.RunPod.Launch.{Launches, new-job_options}
use cnf_certsuite_operator.Controller.Cluster.{Cluster, Call}
use cnf_certsuite_operator.Controller.State.{State, return, next_int, get_run}
use cnf_certsuite_operator.Controller.Status.{update_status_phase}
use cnf_certsuite_operator.Controller.EndOfRun.{CtrlResult}
use cnf_certsuite_operator.Controller.Reconcile.{
  pod_name_of, register_run, set_running, launch_pod, launch_after, start_run, handle_answer,
  handle_run, reconcile,
}
use cnf_certsuite_operator.Controller.Registry.{HasNoPod}
use cnf_certsuite_operator.Controller.Life.{
  Store, name_of, pod_key, update_status-Updated, create_pod-Stored, get_run-Stored,
}

-- The resource once its pod runs.
abbrev pub running : CertsuiteRun → String → CertsuiteRun
running r pod_name = record r {
  status = record r.status { phase = "CertSuiteRunning"; cnf_cert_suite_pod_name = some pod_name };
}

module _ (C : Cluster) (D : Store C) (fraction : ℕ → ℕ → ℕ → ℕ) (req : NamespacedName) where
  open C use {World}

  -- A request that starts the run's pod.
  pub record Started (r : CertsuiteRun) (image pod_name : String)
      (m : Result CtrlResult × State World) : Type 0 where
    pub returned : m.0 ≡ ok (record { requeue_after = 10 * second })
    pub run_is : D.run_of req m.1.world ≡ some (running r pod_name)
    pub pod : Pod
    pub pod_is :
        D.pod_of (record { namespace = req.namespace; name = pod_name }) m.1.world ≡ some pod
    pub launches : Launches image pod_name req.namespace r pod

  set_running-Started :
      (r r' : CertsuiteRun) (pod_name : String) (s : State World)
      → D.run_of req s.world ≡ some r'
      → name_of r' ≡ req
      → (t : State World) × (set_running C fraction req pod_name s
          ≡ (ok (record { requeue_after = 10 * second }), t))
        × (D.run_of req t.world ≡ some (running r' pod_name))
        × ((m : NamespacedName) → D.pod_of m t.world ≡ D.pod_of m s.world)
  unfolding set_running return
  set_running-Started r r' pod_name s there named =
      let (t, e, u) =
        update_status-Updated C D req
          (λ st. record st {
            phase = status_phase_cert_suite_running;
            cnf_cert_suite_pod_name = some pod_name;
          })
          r' s there named refl in
      (t, bind_ok _ _ e, u.run_is, u.pods_same)

  launch_pod-Started :
      (r r' : CertsuiteRun) (pod_name : String) (pod : Pod) (image : String) (s : State World)
      → D.run_of req s.world ≡ some r'
      → name_of r' ≡ req
      → running r' pod_name ≡ running r pod_name
      → Launches image pod_name req.namespace r pod
      → D.pod_of (record { namespace = req.namespace; name = pod_name }) s.world ≡ none
      → Started r image pod_name (launch_pod C fraction req pod_name (ok pod) s)
  unfolding launch_pod
  launch_pod-Started r r' pod_name pod image s there named same launches free =
      let key : pod_key pod ≡ record { namespace = req.namespace; name = pod_name } =
        ground (arith, launches.named.0, launches.named.1) in
      let (t, created, pod_is, runs_same) = create_pod-Stored C D pod _ s key free in
      let (u, e, run_is, pods_same) =
        set_running-Started r r' pod_name t (runs_same req ∙ there) named in
      let whole : launch_pod C fraction req pod_name (ok pod) s
          ≡ (ok (record { requeue_after = 10 * second }), u) =
        bind_ok _ _ created ∙ e in
      subst (Started r image pod_name) (sym whole) (record {
        returned = refl;
        run_is = run_is ∙ ap some same;
        pod = pod;
        pod_is = pods_same _ ∙ pod_is;
        launches = launches;
      })

  launch_after-Started :
      (r r' : CertsuiteRun) (pod_name : String) (s : State World)
      → D.run_of req s.world ≡ some r'
      → name_of r' ≡ req
      → running r' pod_name ≡ running r pod_name
      → D.pod_of (record { namespace = req.namespace; name = pod_name }) s.world ≡ none
      → Started r s.side_car_image pod_name (launch_after C fraction req r pod_name none s)
  unfolding launch_after
  launch_after-Started r r' pod_name s there named same free =
      let (pod, built, launches) = new-job_options s.side_car_image pod_name req.namespace r in
      rw built
        (launch_pod-Started r r' pod_name pod s.side_car_image s there named same launches free)

  pub registered_ok :
      (s : State World)
      → register_run C fraction req s
        ≡ (ok (pod_name_of (next_int s.cert_suite_pod_id)), (register_run C fraction req s).1)
  unfolding register_run
  registered_ok s = refl

  start_run-Started :
      (r : CertsuiteRun) (s : State World)
      → D.run_of req s.world ≡ some r
      → name_of r ≡ req
      → D.pod_of
          (record { namespace = req.namespace; name = pod_name_of (next_int s.cert_suite_pod_id) })
          s.world
        ≡ none
      → Started r s.side_car_image
          (pod_name_of (next_int s.cert_suite_pod_id))
          (start_run C fraction req r s)
  unfolding start_run update_status_phase
  start_run-Started r s there named free =
      let name : String = pod_name_of (next_int s.cert_suite_pod_id) in
      let s1 : State World = (register_run C fraction req s).1 in
      let (t, e, u) =
        update_status-Updated C D req
          (λ st. record st { phase = status_phase_cert_suite_deploying }) r s1 there named refl in
      let whole : start_run C fraction req r s ≡ launch_after C fraction req r name none t =
        bind_ok _ _ (registered_ok s) ∙ bind_ok _ _ e in
      subst (Started r s.side_car_image name) (sym whole) (
        subst (λ (image : String). Started r image name (launch_after C fraction req r name none t))
          u.image_same
          (launch_after-Started r
            (record r { status = record r.status { phase = status_phase_cert_suite_deploying } })
            name t u.run_is named refl (u.pods_same _ ∙ free)))

  pub handle_run-start :
      (r : CertsuiteRun) (o : Option String) (s : State World)
      → r.status.cnf_cert_suite_pod_name ≡ o
      → HasNoPod r
      → handle_run C fraction req r o s ≡ start_run C fraction req r s
  unfolding handle_run
  handle_run-start r none s e no_pod = refl
  handle_run-start r (some pod_name) s e no_pod = elim no_pod [
    | inl unset ↦ cc
    | inr blank ↦
        let empty : pod_name ≡ "" = some_inj (sym e ∙ blank) in
        rw ((eq_iff pod_name "").1 empty) refl
  ]

  -- In a cluster that stores what it is sent, a request for a resource that names no pod, where the next
  -- pod name is free, leaves the resource in the phase CertSuiteRunning with that pod's name and
  -- otherwise as it was, and the pod stored, which runs what the resource asks for; the request comes
  -- back in ten seconds.
  pub reconcile-Started :
      (r : CertsuiteRun) (s : State World)
      → D.run_of req s.world ≡ some r
      → name_of r ≡ req
      → HasNoPod r
      → D.pod_of
          (record { namespace = req.namespace; name = pod_name_of (next_int s.cert_suite_pod_id) })
          s.world
        ≡ none
      → Started r s.side_car_image
          (pod_name_of (next_int s.cert_suite_pod_id))
          (reconcile C fraction req s)
  unfolding reconcile handle_answer get_run
  reconcile-Started r s there named no_pod free =
      let s1 : State World = record s { calls = s.calls ++ Call.get_run req ∷ [] } in
      let whole : reconcile C fraction req s ≡ start_run C fraction req r s1 =
        bind_ok (get_run C req) _ (get_run-Stored C D req s r there)
        ∙ handle_run-start r r.status.cnf_cert_suite_pod_name s1 refl no_pod in
      subst (Started r s.side_car_image (pod_name_of (next_int s.cert_suite_pod_id))) (sym whole)
        (start_run-Started r s1 there named free)
