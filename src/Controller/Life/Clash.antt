-- ===== src/Controller/Life/Clash.antt =====
-- A new run of internal/controller/certsuiterun_controller.go whose pod's name is taken, as after a restart of
-- the operator, whose counter begins again.
use mathlib.Core.Path.{subst}
use cnf_certsuite_operator.Prelude.{
  ℕ, String, ◌≡◌, refl, sym, ap, ◌∙◌, false, Option, none, some, [], ◌∷◌, ◌++◌, arith,
}
use cnf_certsuite_operator.Go.{Error, Result, ok, api, invalid, already_exists}
use cnf_certsuite_operator.Action.{bind_ok}
use cnf_certsuite_operator.Pod.{Pod}
use cnf_certsuite_operator.Api.{
  NamespacedName, CertsuiteRun, CertsuiteRunStatus, allowed_phases,
  status_phase_cert_suite_deploying, status_phase_cert_suite_deploy_error,
}
use cnf_certsuite_operator.Controller.RunPod.Launch.{new-job_options}
use cnf_certsuite_operator.Controller.Cluster.{Cluster, Call, Attempts, last, again}
use cnf_certsuite_operator.Controller.State.{
  State, NamespacedName_eq, return, next_int, get_run, create_pod,
}
use cnf_certsuite_operator.Controller.Status.{
  write_status, set_status, update_status, update_status_phase,
}
use cnf_certsuite_operator.Controller.EndOfRun.{CtrlResult, done}
use cnf_certsuite_operator.Controller.EndOfRun.Refused.{is_one_of}
use cnf_certsuite_operator.Controller.Reconcile.{
  pod_name_of, register_run, deploy_error, launch_pod, launch_after, start_run, handle_answer,
  reconcile,
}
use cnf_certsuite_operator.Controller.Registry.{HasNoPod}
use cnf_certsuite_operator.Controller.Life.{
  Store, name_of, pod_key, update_status-Updated, update_status-once, get_run-Stored,
}
use cnf_certsuite_operator.Controller.Life.Started.{registered_ok, handle_run-start}
use cnf_certsuite_operator.Controller.Life.Ended.{in_phase}

-- A function that fails for another reason than a conflict is not run again.
Attempts-stop :
    {S : Type 0} {fn : S → Option Error × S} {s : S} {r : Option Error × S} (text : String)
    → Attempts fn s r
    → (fn s).0 ≡ some (api invalid text)
    → r ≡ fn s
Attempts-stop text last e = refl
Attempts-stop text (again other refused rest) e = cc

module _ (C : Cluster) (D : Store C) (fraction : ℕ → ℕ → ℕ → ℕ) (req : NamespacedName) where
  open C use {World}

  -- A refused update leaves the cluster as it was.
  module _ (f : CertsuiteRunStatus → CertsuiteRunStatus) (r : CertsuiteRun) (s : State World)
      (there : D.run_of req s.world ≡ some r)
      (outside : is_one_of (f r.status).phase allowed_phases ≡ false) where
    set_status-refused :
        (text : String) × ((set_status C req f s).0 ≡ some (api invalid text))
        × ((set_status C req f s).1.world ≡ s.world)
    unfolding set_status write_status
    set_status-refused =
        let (text, e) = D.update-refused (record r { status = f r.status }) s.world outside in
        rw (D.get_run-stored req s.world r there)
          (text, ap (λ (p : Option Error × World). p.0) e, ap (λ (p : Option Error × World). p.1) e)

    pub update_status-refused :
        (e : Error) × (t : State World) × (update_status C req f s ≡ (ok (some e), t))
        × (t.world ≡ s.world)
    update_status-refused =
        let (text, refused, same) = set_status-refused in
        (
          api invalid text,
          (set_status C req f s).1,
          update_status-once C req f s
              (Attempts-stop text (C.retry_attempts (State World) (set_status C req f) s) refused)
              refused,
          same,
        )

  deploy_error-done :
      (r : CertsuiteRun) (s : State World)
      → D.run_of req s.world ≡ some r
      → (t : State World) × (deploy_error C fraction req s ≡ (ok done, t)) × (t.world ≡ s.world)
  unfolding deploy_error update_status_phase return
  deploy_error-done r s there =
      let (e, t, refused, same) =
        update_status-refused (λ st. record st { phase = status_phase_cert_suite_deploy_error }) r s
          there refl in
      (t, bind_ok _ _ refused, same)

  -- The run in the phase CertSuiteDeploying, and no more to do.
  pub record Stuck (r : CertsuiteRun) (n : NamespacedName) (other : Pod)
      (m : Result CtrlResult × State World) : Type 0 where
    pub returned : m.0 ≡ ok done
    pub run_is : D.run_of req m.1.world ≡ some (in_phase "CertSuiteDeploying" r)
    pub pod_is : D.pod_of n m.1.world ≡ some other

  launch_pod-Stuck :
      (r : CertsuiteRun) (pod_name : String) (pod other : Pod) (n : NamespacedName)
      (s : State World)
      → pod_key pod ≡ n
      → D.run_of req s.world ≡ some (in_phase "CertSuiteDeploying" r)
      → D.pod_of n s.world ≡ some other
      → Stuck r n other (launch_pod C fraction req pod_name (ok pod) s)
  unfolding launch_pod create_pod
  launch_pod-Stuck r pod_name pod other n s key there taken =
      let (text, refused) =
        D.create-taken pod other s.world
          (ap (λ (m : NamespacedName). D.pod_of m s.world) key ∙ taken) in
      let t : State World = record s { calls = s.calls ++ Call.create_pod pod ∷ [] } in
      let created : create_pod C pod s ≡ (ok (some (api already_exists text)), t) =
        ap
          (λ (p : Option Error × World).
            let a : Result (Option Error) × State World =
              (ok p.0, record s { calls = s.calls ++ Call.create_pod pod ∷ []; world = p.1 }) in
            a)
          refused in
      let (u, e, same) = deploy_error-done (in_phase "CertSuiteDeploying" r) t there in
      let whole : launch_pod C fraction req pod_name (ok pod) s ≡ (ok done, u) =
        bind_ok (create_pod C pod) _ created ∙ e in
      subst (Stuck r n other) (sym whole) (record {
        returned = refl;
        run_is = ap (D.run_of req) same ∙ there;
        pod_is = ap (D.pod_of n) same ∙ taken;
      })

  launch_after-Stuck :
      (r : CertsuiteRun) (pod_name : String) (other : Pod) (s : State World)
      → D.run_of req s.world ≡ some (in_phase "CertSuiteDeploying" r)
      → D.pod_of (record { namespace = req.namespace; name = pod_name }) s.world ≡ some other
      → Stuck r
          (record { namespace = req.namespace; name = pod_name })
          other
          (launch_after C fraction req r pod_name none s)
  unfolding launch_after
  launch_after-Stuck r pod_name other s there taken =
      let (pod, built, launches) = new-job_options s.side_car_image pod_name req.namespace r in
      let key : pod_key pod ≡ record { namespace = req.namespace; name = pod_name } =
        ground (arith, launches.named.0, launches.named.1) in
      rw built (launch_pod-Stuck r pod_name pod other _ s key there taken)

  abbrev pub next_name : State World → String
  next_name s = pod_name_of (next_int s.cert_suite_pod_id)

  pub reconcile-Stuck :
      (r : CertsuiteRun) (other : Pod) (s : State World)
      → D.run_of req s.world ≡ some r
      → name_of r ≡ req
      → HasNoPod r
      → D.pod_of (record { namespace = req.namespace; name = next_name s }) s.world ≡ some other
      → Stuck r
          (record { namespace = req.namespace; name = next_name s })
          other
          (reconcile C fraction req s)
  unfolding reconcile handle_answer start_run update_status_phase
  reconcile-Stuck r other s there named no_pod taken =
      let s1 : State World = record s { calls = s.calls ++ Call.get_run req ∷ [] } in
      let s2 : State World = (register_run C fraction req s1).1 in
      let (t, e, u) =
        update_status-Updated C D req
          (λ st. record st { phase = status_phase_cert_suite_deploying }) r s2 there named refl in
      let whole : reconcile C fraction req s ≡ launch_after C fraction req r (next_name s) none t =
        bind_ok (get_run C req) _ (get_run-Stored C D req s r there)
        ∙ handle_run-start C D fraction req r r.status.cnf_cert_suite_pod_name s1 refl no_pod
        ∙ bind_ok _ _ (registered_ok C D fraction req s1)
        ∙ bind_ok _ _ e in
      subst (Stuck r (record { namespace = req.namespace; name = next_name s }) other) (sym whole)
        (launch_after-Stuck r (next_name s) other t u.run_is (u.pods_same _ ∙ taken))
