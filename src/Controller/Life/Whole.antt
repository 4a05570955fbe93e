-- ===== src/Controller/Life/Whole.antt =====
-- A run from its new resource to its report and its phase: two requests of
-- internal/controller/certsuiterun_controller.go, and the status that the sidecar
-- (certsuite-sidecar/app/cnf-cert-suite-report/cnfcertsuitereport.go) writes between them.
use text.Mathlib.TextLemmas.{append-eq-nil_iff}
use cnf_certsuite_operator.Prelude.{
  eq_iff, ℕ, String, ◌≡◌, ◌≢◌, sym, ap, some_inj, ◌∙◌, Option, none, some, arith,
}
use cnf_certsuite_operator.Prelude.Int.{ℤ}
use cnf_certsuite_operator.Go.{ok}
use cnf_certsuite_operator.Definitions.{cnf_cert_pod_name_prefix, cnf_cert_suite_container_name}
use cnf_certsuite_operator.Claim.{Schema}
use cnf_certsuite_operator.Pod.{Pod, ContainerStatus}
use cnf_certsuite_operator.Api.{NamespacedName, CertsuiteRun, CertsuiteReport}
use cnf_certsuite_operator.Report.{set_run_cr_status}
use cnf_certsuite_operator.Report.Details.{CheckDetails}
use cnf_certsuite_operator.Report.Summary.{tally, verdict_of, set_run_cr_status-tally}
use cnf_certsuite_operator.Controller.Cluster.{Cluster}
use cnf_certsuite_operator.Controller.State.{State, next_int}
use cnf_certsuite_operator.Controller.EndOfRun.{phase_of_exit}
use cnf_certsuite_operator.Controller.EndOfRun.Placement.{
  Aligned, find_named, get_container_status-Aligned,
}
use cnf_certsuite_operator.Controller.Reconcile.{pod_name_of, reconcile}
use cnf_certsuite_operator.Controller.Registry.{HasNoPod}
use cnf_certsuite_operator.Controller.Life.{Store, name_of}
use cnf_certsuite_operator.Controller.Life.Started.{Started, running, reconcile-Started}
use cnf_certsuite_operator.Controller.Life.Ended.{in_phase, reconcile-Ended}

pod_name_of_nonempty : (i : ℕ) → pod_name_of i ≢ ""
unfolding pod_name_of
pod_name_of_nonempty i e =
    let blank : cnf_cert_pod_name_prefix ≡ "" = (append-eq-nil_iff.0 e).0 in
    ground (arith, eq_iff cnf_cert_pod_name_prefix "")

module _ (C : Cluster) (D : Store C) (fraction : ℕ → ℕ → ℕ → ℕ) (req : NamespacedName) where
  open C use {World}

  -- The resource at the end: its pod, its phase, and the report of the claim.
  pub record Lived (r : CertsuiteRun) (pod_name : String) (claim : Schema) (code : ℤ) (w : World)
      : Type 0 where
    pub report : CertsuiteReport
    pub run_is :
        D.run_of req w
        ≡ some (record r {
          status = record {
            phase = phase_of_exit code;
            cnf_cert_suite_pod_name = some pod_name;
            report = some report;
          };
        })
    pub counted : report.summary ≡ tally claim.results
    pub judged : report.verdict ≡ verdict_of claim.results

  abbrev pub pod_name : State World → String
  pod_name s = pod_name_of (next_int s.cert_suite_pod_id)

  -- A new run in a cluster that stores what it is sent, whose pod's name is free. The request for it comes
  -- back in ten seconds; it leaves the resource in the phase CertSuiteRunning with the pod's name, and
  -- the pod stored, which runs what the resource asks for. Then the cluster comes to a world in which
  -- the sidecar has written into that resource what it makes of a claim, and in which the pod's
  -- container statuses are in the order of its containers and the one of the suite's name says that it has
  -- terminated. The next request is done, and leaves the resource with the phase of the exit code, the name of the pod, and the report of the claim, whose counts and verdict
  -- are those of the claim's test cases: neither of the two writers loses what the other has written.
  pub reconcile-Lived :
      (r r1 r2 : CertsuiteRun) (unmarshal : String → Option CheckDetails) (claim : Schema)
      (pod : Pod) (st : ContainerStatus) (code : ℤ) (s : State World) (w : World)
      → D.run_of req s.world ≡ some r
      → name_of r ≡ req
      → HasNoPod r
      → D.pod_of (record { namespace = req.namespace; name = pod_name s }) s.world ≡ none
      → D.run_of req (reconcile C fraction req s).1.world ≡ some r1
      → set_run_cr_status unmarshal r1 claim ≡ ok r2
      → D.run_of req w ≡ some r2
      → D.pod_of (record { namespace = req.namespace; name = pod_name s }) w ≡ some pod
      → Aligned pod.container_statuses pod.containers
      → find_named cnf_cert_suite_container_name pod.container_statuses ≡ some st
      → st.state.terminated ≡ some code
      → let t = record ((reconcile C fraction req s).1) { world = w } in
        Started C D fraction req r s.side_car_image (pod_name s) (reconcile C fraction req s)
        × ((reconcile C fraction req t).0 ≡ ok (record { requeue_after = 0 }))
        × Lived r (pod_name s) claim code (reconcile C fraction req t).1.world
  reconcile-Lived r r1 r2 unmarshal claim pod st code s w there named no_pod free read built written
        pod_there aligned bears ended =
      let started = reconcile-Started C D fraction req r s there named no_pod free in
      let same : r1 ≡ running r (pod_name s) = some_inj (sym read ∙ started.run_is) in
      let (report, shape, counted, judged) = set_run_cr_status-tally unmarshal r1 claim built in
      let shape' : r2 ≡ record (running r (pod_name s)) {
        status = record ((running r (pod_name s)).status) { report = some report };
      } =
        shape
        ∙ ap (λ (x : CertsuiteRun). record x { status = record x.status { report = some report } })
            same in
      let status =
        get_container_status-Aligned pod cnf_cert_suite_container_name aligned
        ∙ ap (λ (o : Option ContainerStatus). ok o) bears in
      let over =
        reconcile-Ended C D fraction req r2 (pod_name s) pod st code
          (record ((reconcile C fraction req s).1) { world = w }) written
          (ap name_of shape' ∙ named)
          (ap (λ (x : CertsuiteRun). x.status.cnf_cert_suite_pod_name) shape')
          (pod_name_of_nonempty (next_int s.cert_suite_pod_id)) pod_there status ended in
      (
        started,
        over.returned,
        record {
          report = report;
          run_is =
              over.run_is
              ∙ ap (λ (x : CertsuiteRun). some (in_phase (phase_of_exit code) x)) shape';
          counted = counted;
          judged = judged;
        },
      )
