-- ===== src/Controller/Registry.antt =====
-- What one `Reconcile` of internal/controller/certsuiterun_controller.go does to the registry of
-- runs and to the pods of the cluster, in every case and whichever of its calls fail.
use mathlib.Core.Path.{subst}
use cnf_certsuite_operator.Prelude.{
  ℕ, String, ◌≡◌, ◌≢◌, refl, ap, ◌∙◌, ◌⊎◌, inl, inr, Option, none, some, [], ◌∷◌, ◌++◌, arith,
  str_eq, eq_iff, Bool-cases,
}
use cnf_certsuite_operator.Prelude.Dict.{lookup, insert, erase}
use cnf_certsuite_operator.Go.{
  Error, ok, api, errorf, not_found, already_exists, conflict, invalid, other_reason,
}
use cnf_certsuite_operator.Pod.{Pod}
use cnf_certsuite_operator.Api.{NamespacedName, CertsuiteRun, status_phase_cert_suite_deploying}
use cnf_certsuite_operator.Controller.RunPod.Launch.{Launches, new-job_options}
use cnf_certsuite_operator.Controller.Cluster.{Cluster, Answer, Call, found, failure}
use cnf_certsuite_operator.Controller.State.{
  State, NamespacedName_eq, ◌>>=◌, return, fail, next_int,
}
use cnf_certsuite_operator.Controller.Reconcile.{
  pod_name_of, forget_found, forget_run, return_ignoring_not_found, handle_get_error, register_run,
  launch_pod, launch_after, start_run, handle_answer, handle_run, reconcile,
}
use cnf_certsuite_operator.Controller.Frame.{
  View, view, Sees, Sees-image, get_run-Sees, delete_pod-Sees, update_status_phase-Sees,
}
use cnf_certsuite_operator.Controller.Quiet.{end-Sees, launch_pod-Sees}

-- The run's entry, under the next pod name.
abbrev pub registered : NamespacedName → View → View
registered req v = record v {
  runs = insert req (pod_name_of (next_int v.id)) v.runs;
  id = next_int v.id;
}

-- A resource that names its pod, and one that does not.
abbrev pub HasPod : CertsuiteRun → Type 0
HasPod run_cr = (name : String) × (run_cr.status.cnf_cert_suite_pod_name ≡ some name) × (name ≢ "")

abbrev pub HasNoPod : CertsuiteRun → Type 0
HasNoPod run_cr =
    (run_cr.status.cnf_cert_suite_pod_name ≡ none)
    ⊎ (run_cr.status.cnf_cert_suite_pod_name ≡ some "")

-- The changes of the registry and of the pods, by the answer to the first `Get`.
pub data Change (req : NamespacedName) (v : View) (a : Answer CertsuiteRun) (w : View)
    : Type 0 where
  unknown : (e : Error) → a ≡ failure e → lookup req v.runs ≡ none → w ≡ v → Change req v a w
  forgotten :
      (e : Error) (name : String)
      → a ≡ failure e
      → lookup req v.runs ≡ some name
      → w ≡ record v {
        runs = erase req v.runs;
        names = v.names ++ record { namespace = req.namespace; name = name } ∷ [];
      }
      → Change req v a w
  watched : (run_cr : CertsuiteRun) → a ≡ found run_cr → HasPod run_cr → w ≡ v → Change req v a w
  not_launched :
      (run_cr : CertsuiteRun)
      → a ≡ found run_cr
      → HasNoPod run_cr
      → w ≡ registered req v
      → Change req v a w
  launched :
      (run_cr : CertsuiteRun) (pod : Pod)
      → a ≡ found run_cr
      → HasNoPod run_cr
      → Launches v.image (pod_name_of (next_int v.id)) req.namespace run_cr pod
      → w ≡ record (registered req v) { pods = v.pods ++ pod ∷ [] }
      → Change req v a w

module _ (C : Cluster) (fraction : ℕ → ℕ → ℕ → ℕ) (req : NamespacedName) where
  open C use {World}

  -- The change that an action makes after the answer `a`.
  abbrev Changes : Answer CertsuiteRun → State World → State World → Type 0
  Changes a s t = Change req (view s) a (view t)

  forget_found-Changes :
      (e : Error) (name : Option String) (s : State World)
      → lookup req s.certification_runs ≡ name
      → Changes (failure e) s (forget_found C fraction req name s).1
  unfolding forget_found view
  forget_found-Changes e none s h = unknown e refl h refl
  forget_found-Changes e (some name) s h =
      let gone : NamespacedName = record { namespace = req.namespace; name = name } in
      forgotten e name refl h (
        ap (λ (w : View). record w { runs = erase req w.runs })
          ((delete_pod-Sees C (view s) gone).at s refl))

  pub return_ignoring_not_found_same :
      (e : Error) (s : State World) → (return_ignoring_not_found C fraction e s).1 ≡ s
  unfolding return_ignoring_not_found return fail
  return_ignoring_not_found_same (api not_found text) s = refl
  return_ignoring_not_found_same (api already_exists text) s = refl
  return_ignoring_not_found_same (api conflict text) s = refl
  return_ignoring_not_found_same (api invalid text) s = refl
  return_ignoring_not_found_same (api other_reason text) s = refl
  return_ignoring_not_found_same (errorf text) s = refl

  pub forget_found_ok :
      (name : Option String) (s : State World) → (forget_found C fraction req name s).0 ≡ ok tt
  unfolding forget_found
  forget_found_ok none s = refl
  forget_found_ok (some name) s = refl

  handle_get_error-Changes :
      (e : Error) (s : State World) → Changes (failure e) s (handle_get_error C fraction req e s).1
  unfolding handle_get_error forget_run ◌>>=◌
  handle_get_error-Changes e s = rw (forget_found_ok (lookup req s.certification_runs) s) (
      rw (return_ignoring_not_found_same e)
        (forget_found-Changes e (lookup req s.certification_runs) s refl))

  launch_pod-Changes :
      (run_cr : CertsuiteRun) (s t : State World) (pod : Pod)
      → HasNoPod run_cr
      → Sees (registered req (view s)) t
      → Launches t.side_car_image (pod_name_of (next_int (view s).id)) req.namespace run_cr pod
      → Changes
          (found run_cr)
          s
          (launch_pod C fraction req (pod_name_of (next_int (view s).id)) (ok pod) t).1
  launch_pod-Changes run_cr s t pod no_pod h launches =
      launched run_cr pod refl no_pod (rw (Sees-image t h) at launches)
        ((launch_pod-Sees C fraction (registered req (view s)) req _ pod).at t h)

  launch_after-Changes :
      (run_cr : CertsuiteRun) (s : State World) (e : Option Error) (t : State World)
      → HasNoPod run_cr
      → Sees (registered req (view s)) t
      → Changes
          (found run_cr)
          s
          (launch_after C fraction req run_cr (pod_name_of (next_int (view s).id)) e t).1
  unfolding launch_after ◌>>=◌
  launch_after-Changes run_cr s (some x) t no_pod h = not_launched run_cr refl no_pod h
  launch_after-Changes run_cr s none t no_pod h =
      let (pod, built, launches) =
        new-job_options t.side_car_image (pod_name_of (next_int (view s).id)) req.namespace
          run_cr in
      rw built (launch_pod-Changes run_cr s t pod no_pod h launches)

  start_run-Changes :
      (run_cr : CertsuiteRun) (s : State World)
      → HasNoPod run_cr
      → Changes (found run_cr) s (start_run C fraction req run_cr s).1
  unfolding start_run ◌>>=◌ view
  start_run-Changes run_cr s no_pod = launch_after-Changes run_cr s _ _ no_pod (
      (update_status_phase-Sees C (registered req (view s)) req
          status_phase_cert_suite_deploying).at
        (register_run C fraction req s).1 refl)

  handle_run-Changes :
      (run_cr : CertsuiteRun) (pod_name : Option String) (s : State World)
      → run_cr.status.cnf_cert_suite_pod_name ≡ pod_name
      → Changes (found run_cr) s (handle_run C fraction req run_cr pod_name s).1
  unfolding handle_run
  handle_run-Changes run_cr none s e = start_run-Changes run_cr s (inl e)
  handle_run-Changes run_cr (some pod_name) s e = elim (Bool-cases (str_eq pod_name "")) [
    | inl blank ↦
        rw blank (start_run-Changes run_cr s (inr (e ∙ ap some ((eq_iff pod_name "").0 blank))))
    | inr named ↦ rw named (
        watched run_cr refl (pod_name, e, λ b. ground (arith, eq_iff pod_name ""))
          ((end-Sees C fraction (view s) run_cr.name pod_name run_cr.namespace
              run_cr.spec.time_out).at
            s refl))
  ]

  handle_answer-Changes :
      (a : Answer CertsuiteRun) (s : State World) → Changes a s (handle_answer C fraction req a s).1
  unfolding handle_answer
  handle_answer-Changes (failure e) s = handle_get_error-Changes e s
  handle_answer-Changes (found run_cr) s =
      handle_run-Changes run_cr run_cr.status.cnf_cert_suite_pod_name s refl

  -- What one `Reconcile` does to the registry, the counter and the pods, whichever of its calls fail
  -- and with any number of retries. If the resource is not read, for whatever reason, the run's pod is
  -- sent to be deleted and its entry removed, if it has one, and none of them changes otherwise. If
  -- the resource names its pod, none of them changes. If it names none, the counter steps once, the run
  -- is registered under the next name, and at most one pod is sent to be created: it has that name and
  -- the request's namespace, and runs what the resource asks for.
  pub reconcile-Change :
      (s : State World)
      → Change req (view s) (C.get_run req s.world).0 (view (reconcile C fraction req s).1)
  unfolding reconcile ◌>>=◌
  reconcile-Change s =
      let (a, w) = C.get_run req s.world in
      let t : State World = record s { calls = s.calls ++ Call.get_run req ∷ []; world = w } in
      subst (λ v. Change req v a (view (handle_answer C fraction req a t).1))
        ((get_run-Sees C (view s) req).at s refl) (handle_answer-Changes a t)
