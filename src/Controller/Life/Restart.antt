-- ===== src/Controller/Life/Restart.antt =====
-- After a restart of the operator (internal/controller/certsuiterun_controller.go) the pod names begin
-- again: a new run gets the name of a pod that is there, and its deletion removes that pod.
use mathlib.Core.Path.{subst}
use cnf_certsuite_operator.Prelude.{
  ℕ, String, ◌≡◌, refl, sym, ap, some_inj, ◌∙◌, inl, inr, true, some, [], ◌∷◌, ◌++◌,
}
use cnf_certsuite_operator.Prelude.Dict.{lookup, lookup-insert}
use cnf_certsuite_operator.Go.{Error, ok}
use cnf_certsuite_operator.Pod.{Pod}
use cnf_certsuite_operator.Api.{NamespacedName, CertsuiteRun}
use cnf_certsuite_operator.Controller.Cluster.{Cluster, Answer, found, failure, found_inj}
use cnf_certsuite_operator.Controller.State.{
  State, NamespacedName_eq, name_eq, name_eq_iff, next_int,
}
use cnf_certsuite_operator.Controller.Reconcile.{pod_name_of, reconcile}
use cnf_certsuite_operator.Controller.Frame.{View, view}
use cnf_certsuite_operator.Controller.Registry.{
  HasPod, HasNoPod, Change, unknown, forgotten, watched, not_launched, launched, registered,
  reconcile-Change,
}
use cnf_certsuite_operator.Controller.Life.{Store, name_of}
use cnf_certsuite_operator.Controller.Life.Ended.{in_phase}
use cnf_certsuite_operator.Controller.Life.Clash.{reconcile-Stuck}

not_both : (r : CertsuiteRun) → HasPod r → HasNoPod r → ⊥
not_both r (name, e, nonempty) (inl unset) = cc
not_both r (name, e, nonempty) (inr blank) = nonempty (some_inj (sym e ∙ blank))

registered-lookup :
    (req : NamespacedName) (v : View)
    → lookup req (registered req v).runs ≡ some (pod_name_of (next_int v.id))
registered-lookup req v =
    let same : name_eq req req ≡ true = (name_eq_iff req req).1 refl in
    lookup-insert req req (pod_name_of (next_int v.id)) v.runs ∙ (rw same refl)

Change-lookup :
    {req : NamespacedName} {v w : View} {a : Answer CertsuiteRun} (r : CertsuiteRun)
    → a ≡ found r
    → HasNoPod r
    → Change req v a w
    → lookup req w.runs ≡ some (pod_name_of (next_int v.id))
Change-lookup r ae no_pod (unknown e be none_found same) = cc
Change-lookup r ae no_pod (forgotten e name be found_name gone) = cc
Change-lookup r ae no_pod (watched r' be has same) =
    absurd (not_both r' has (subst HasNoPod (sym (found_inj (sym be ∙ ae))) no_pod))
Change-lookup {req} {v} r ae no_pod (not_launched r' be has_not next) =
    rw next (registered-lookup req v)
Change-lookup {req} {v} r ae no_pod (launched r' pod be has_not launches next) =
    rw next (registered-lookup req v)

Change-names :
    {req : NamespacedName} {v w : View} {a : Answer CertsuiteRun} (e : Error) (name : String)
    → a ≡ failure e
    → lookup req v.runs ≡ some name
    → Change req v a w
    → w.names ≡ v.names ++ record { namespace = req.namespace; name = name } ∷ []
Change-names e name ae known (unknown e' be none_found same) = cc
Change-names e name ae known (forgotten e' name' be found_name gone) =
    let same : name' ≡ name = some_inj (sym found_name ∙ known) in rw gone (rw same refl)
Change-names e name ae known (watched r' be has same) = cc
Change-names e name ae known (not_launched r' be has_not next) = cc
Change-names e name ae known (launched r' pod be has_not launches next) = cc

module _ (C : Cluster) (D : Store C) (fraction : ℕ → ℕ → ℕ → ℕ) (req : NamespacedName) where
  open C use {World}

  -- The pod that a state would name next for the request's run.
  abbrev pub next_pod : State World → NamespacedName
  next_pod s = record {
    namespace = req.namespace;
    name = pod_name_of (next_int s.cert_suite_pod_id);
  }

  -- In a cluster that stores what it is sent, and whose API server enforces the enumeration of phases, a
  -- request for a resource without a pod, where another pod has the name that comes next, is done without
  -- an error: it leaves the resource in the phase CertSuiteDeploying and that pod as it is. When later
  -- the resource is not read, whatever the cluster has become, that same pod is sent to be deleted.
  pub reconcile-clash :
      (r : CertsuiteRun) (other : Pod) (s : State World) (w : World) (e : Error)
      → D.run_of req s.world ≡ some r
      → name_of r ≡ req
      → HasNoPod r
      → D.pod_of (next_pod s) s.world ≡ some other
      → (C.get_run req w).0 ≡ failure e
      → let first = reconcile C fraction req s in
        let later = reconcile C fraction req (record first.1 { world = w }) in
        (first.0 ≡ ok (record { requeue_after = 0 }))
        × (D.run_of req first.1.world ≡ some (in_phase "CertSuiteDeploying" r))
        × (D.pod_of (next_pod s) first.1.world ≡ some other)
        × ((view later.1).names ≡ (view first.1).names ++ next_pod s ∷ [])
  unfolding view
  reconcile-clash r other s w e there named no_pod taken gone =
      let stuck = reconcile-Stuck C D fraction req r other s there named no_pod taken in
      let t : State World = record ((reconcile C fraction req s).1) { world = w } in
      let answer : (C.get_run req s.world).0 ≡ found r =
        ap (λ (p : Answer CertsuiteRun × World). p.0) (D.get_run-stored req s.world r there) in
      (
        stuck.returned,
        stuck.run_is,
        stuck.pod_is,
        Change-names e _ gone (Change-lookup r answer no_pod (reconcile-Change C fraction req s))
            (reconcile-Change C fraction req t),
      )
