-- ===== src/Report/Results.antt =====
-- The results of a report, one for each test case of the claim, and what each shows
-- (certsuite-sidecar/app/cnf-cert-suite-report/cnfcertsuitereport.go).
use mathlib.Core.List.{Forall₂, append-nil, append_assoc}
use mathlib.Core.Logic.{◌≢◌}
use cnf_certsuite_operator.Prelude.{
  String, ◌≡◌, sym, ap, ◌∙◌, inl, inr, Bool, true, false, ◌||◌, Option, none, some, List, [], ◌∷◌,
  ◌++◌, str_eq, eq_iff, arith, Bool-cases, if◌then◌else◌,
}
use cnf_certsuite_operator.Go.{ok, >>=-ok, ok_inj}
use cnf_certsuite_operator.Claim
use cnf_certsuite_operator.Claim.{Schema}
use cnf_certsuite_operator.Api.{
  CertsuiteRun, CertsuiteRunSpec, CertsuiteReport, TestCaseResult, CertsuiteReportStatusSummary,
  TargetResources, status_state_passed, status_state_skipped, status_state_failed,
}
use cnf_certsuite_operator.Report.{
  no_tests, count_state, describe, shows_targets, set_decoded_targets, set_test_case_targets,
  test_case_result, collect, set_run_cr_status,
}
use cnf_certsuite_operator.Report.States.{state_case, passed, skipped, failed, error, unknown}
use cnf_certsuite_operator.Report.Details.{CheckDetails, get_target_resources_from_claim}

module _ (unmarshal : String → Option CheckDetails) (spec : CertsuiteRunSpec) where
  -- The loop's body returns this result for this entry.
  abbrev pub Reported : String × Claim.TestCaseResult → TestCaseResult → Type 0
  Reported e r = test_case_result unmarshal spec e.0 e.1 ≡ ok r

  pub collect-Reported :
      (claim : Claim.TestSuiteResults) (s : CertsuiteReportStatusSummary)
      (out : List TestCaseResult) {s' : CertsuiteReportStatusSummary} {out' : List TestCaseResult}
      → collect unmarshal spec claim s out ≡ ok (s', out')
      → (new : List TestCaseResult) × (out' ≡ out ++ new) × Forall₂ Reported claim new
  unfolding collect
  collect-Reported [] s out h = ([], ground (arith, append-nil out), Forall₂.nil)
  collect-Reported ((n, tc) ∷ rest) s out h =
      let (r, e, h') = >>=-ok (test_case_result unmarshal spec n tc) _ h in
      let (new, q, f) = collect-Reported rest (count_state tc.state s) (out ++ r ∷ []) h' in
      (r ∷ new, q ∙ append_assoc out (r ∷ []) new, Forall₂.cons e f)

-- What the result of one test case shows.
pub record Describes (spec : CertsuiteRunSpec) (entry : String × Claim.TestCaseResult)
    (r : TestCaseResult) : Type 0 where
  pub identity :
      (r.test_case_name ≡ entry.0)
      × (r.description ≡ entry.1.catalog_info.description)
      × (r.result ≡ entry.1.state)
  pub reason_of_skip : entry.1.state ≡ status_state_skipped → r.reason ≡ entry.1.skip_reason
  pub reason_of_failure :
      entry.1.state ≡ status_state_failed
      → (r.reason ≡ entry.1.failure_reason) × (r.remediation ≡ entry.1.catalog_info.remediation)
  pub no_remediation : entry.1.state ≢ status_state_failed → r.remediation ≡ ""
  pub logs : r.logs ≡ (
      if spec.show_all_results_logs || str_eq entry.1.state status_state_failed
      then entry.1.captured_test_output
      else "")
  pub hidden :
      entry.1.state ≢ status_state_failed
      → (entry.1.state ≡ status_state_passed → spec.show_compliant_resources_always ≡ false)
      → r.target_resources ≡ none

-- The targets are all that is set from the check details.
set_decoded_targets-only :
    (d : Option CheckDetails) (r : TestCaseResult) {r' : TestCaseResult}
    → set_decoded_targets d r ≡ ok r'
    → (t : Option TargetResources) × (r' ≡ record r { target_resources = t })
unfolding set_decoded_targets
set_decoded_targets-only none r h = (r.target_resources, sym (ok_inj h))
set_decoded_targets-only (some d) r h =
    let (c, e, h') = >>=-ok (get_target_resources_from_claim d.compliant) _ h in
    let (k, e', h'') = >>=-ok (get_target_resources_from_claim d.non_compliant) _ h' in
    (_, sym (ok_inj h''))

set_test_case_targets-only :
    (unmarshal : String → Option CheckDetails) (s : String) (r : TestCaseResult)
    {r' : TestCaseResult}
    → set_test_case_targets unmarshal s r ≡ ok r'
    → (t : Option TargetResources) × (r' ≡ record r { target_resources = t })
unfolding set_test_case_targets
set_test_case_targets-only unmarshal s r h = elim (Bool-cases (str_eq s "")) [
  | inl blank ↦ (r.target_resources, sym (ok_inj (rw blank at h)))
  | inr text ↦ set_decoded_targets-only (unmarshal s) r (rw text at h)
]

-- The result, as the `switch` describes it, with its targets and its logs set anew.
abbrev finished :
    CertsuiteRunSpec → String → Claim.TestCaseResult → Option TargetResources → TestCaseResult
finished spec n tc t =
    let r : TestCaseResult = record (describe n tc) { target_resources = t } in
    if spec.show_all_results_logs then record r { logs = tc.captured_test_output } else r

-- The test, and the targets if it holds.
guarded_form :
    (unmarshal : String → Option CheckDetails) (b : Bool) (s : String) (d : TestCaseResult)
    {q : TestCaseResult}
    → d.target_resources ≡ none
    → (if b then set_test_case_targets unmarshal s d else ok d) ≡ ok q
    → (t : Option TargetResources) × (q ≡ record d { target_resources = t })
      × (b ≡ false → t ≡ none)
guarded_form unmarshal true s d bare h =
    let (t, f) = set_test_case_targets-only unmarshal s d h in (t, f, λ e. cc)
guarded_form unmarshal false s d bare h = (d.target_resources, sym (ok_inj h), λ _. bare)

module _ (spec : CertsuiteRunSpec) (n : String) (tc : Claim.TestCaseResult) where
  describe-no_targets : (describe n tc).target_resources ≡ none
  unfolding describe
  describe-no_targets = elim (state_case tc.state) [
    | passed p k f e ↦ rw p
    | skipped p k f e ↦ rw (p, k)
    | failed p k f e ↦ rw (p, k, f)
    | error p k f e ↦ rw (p, k, f)
    | unknown p k f e ↦ rw (p, k, f)
  ]

  result_form :
      (unmarshal : String → Option CheckDetails) {r : TestCaseResult}
      → test_case_result unmarshal spec n tc ≡ ok r
      → (t : Option TargetResources) × (r ≡ finished spec n tc t)
        × (shows_targets spec tc.state ≡ false → t ≡ none)
  unfolding test_case_result
  result_form unmarshal h =
      let (q, e, h') =
        >>=-ok
          (if shows_targets spec tc.state
            then set_test_case_targets unmarshal tc.check_details (describe n tc)
            else ok (describe n tc))
          _ h in
      let (t, f, bare) =
        guarded_form unmarshal (shows_targets spec tc.state) tc.check_details (describe n tc)
          describe-no_targets e in
      (
        t,
        sym (ok_inj h')
            ∙ ap
                (λ (x : TestCaseResult).
                  if spec.show_all_results_logs
                  then record x { logs = tc.captured_test_output }
                  else x)
                f,
        bare,
      )

  finished-Describes :
      (t : Option TargetResources)
      → (shows_targets spec tc.state ≡ false → t ≡ none)
      → Describes spec (n, tc) (finished spec n tc t)
  unfolding describe shows_targets
  finished-Describes t bare =
      let is_passed = eq_iff tc.state status_state_passed in
      let is_skipped = eq_iff tc.state status_state_skipped in
      let is_failed = eq_iff tc.state status_state_failed in
      elim (state_case tc.state) [
        | passed p k f e ↦ ground (arith, is_passed, is_skipped, is_failed)
        | skipped p k f e ↦ ground (arith, is_passed, is_skipped, is_failed)
        | failed p k f e ↦ ground (arith, is_passed, is_skipped, is_failed)
        | error p k f e ↦ ground (arith, is_passed, is_skipped, is_failed)
        | unknown p k f e ↦ ground (arith, is_passed, is_skipped, is_failed)
      ]

module _ (unmarshal : String → Option CheckDetails) (spec : CertsuiteRunSpec) where
  Reported-Describes :
      (entry : String × Claim.TestCaseResult) (r : TestCaseResult)
      → Reported unmarshal spec entry r
      → Describes spec entry r
  Reported-Describes (n, tc) r h =
      let (t, f, bare) = result_form spec n tc unmarshal h in
      rw f (finished-Describes spec n tc t bare)

  all-Describes :
      {claim : Claim.TestSuiteResults} {results : List TestCaseResult}
      → Forall₂ (Reported unmarshal spec) claim results
      → Forall₂ (Describes spec) claim results
  all-Describes Forall₂.nil = Forall₂.nil
  all-Describes (Forall₂.cons {a = entry} {b = r} h hs) =
      Forall₂.cons (Reported-Describes entry r h) (all-Describes hs)

-- Whenever the status is set, the report's results are the claim's test cases one by one and in
-- their order, each with its name, description and state. A skipped test shows its skip reason; a
-- failed one its failure reason and its remediation, which no other shows; a test shows its
-- output exactly if it failed or all logs are asked for; and it shows target resources only if it
-- failed, or if it passed and compliant resources are asked for: a test that errored or was
-- skipped shows none, even if they are asked for.
pub set_run_cr_status-Describes :
    (unmarshal : String → Option CheckDetails) (run_cr : CertsuiteRun) (claim : Schema)
    {run_cr' : CertsuiteRun}
    → set_run_cr_status unmarshal run_cr claim ≡ ok run_cr'
    → (report : CertsuiteReport) × (run_cr'.status.report ≡ some report)
      × Forall₂ (Describes run_cr.spec) claim.results report.results
unfolding set_run_cr_status
set_run_cr_status-Describes unmarshal run_cr claim h =
    let ((summary, results), e, h') =
      >>=-ok (collect unmarshal run_cr.spec claim.results no_tests []) _ h in
    let (new, q, f) = collect-Reported unmarshal run_cr.spec claim.results no_tests [] e in
    (
      _,
      ap (λ (r : CertsuiteRun). r.status.report) (sym (ok_inj h')),
      rw q (all-Describes unmarshal run_cr.spec f),
    )
