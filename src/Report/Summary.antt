-- ===== src/Report/Summary.antt =====
-- The summary and the verdict of a report, against counts of the claim's states
-- (certsuite-sidecar/app/cnf-cert-suite-report/cnfcertsuitereport.go).
use cnf_certsuite_operator.Prelude.{
  ℕ, suc, ◌∙◌, sym, ap, ◌+◌, ◌≤◌, String, ◌≡◌, refl, Bool, true, false, ◌&&◌, ◌||◌, Option, some,
  List, [], ◌∷◌, ◌++◌, str_eq, arith, length, leb, ◌==◌, if◌then◌else◌,
}
use cnf_certsuite_operator.Go.{ok, >>=-ok, ok_inj}
use cnf_certsuite_operator.Claim
use cnf_certsuite_operator.Claim.{Schema}
use cnf_certsuite_operator.Api.{
  CertsuiteRun, CertsuiteRunSpec, CertsuiteReport, TestCaseResult, CertsuiteReportStatusSummary,
  status_state_passed, status_state_skipped, status_state_failed, status_state_error,
  status_verdict_pass, status_verdict_skip, status_verdict_fail, status_verdict_error,
}
use cnf_certsuite_operator.Report.{
  no_tests, count_state, verdict, test_case_result, collect, set_run_cr_status,
}
use cnf_certsuite_operator.Report.States.{state_case, passed, skipped, failed, error, unknown}
use cnf_certsuite_operator.Report.Details.{CheckDetails}

-- How many test cases are in a state.
unfoldable pub count_of : String → Claim.TestSuiteResults → ℕ
count_of state [] = 0
count_of state ((n, tc) ∷ rest) =
    let k = count_of state rest in if str_eq tc.state state then suc k else k

-- The summary that the counts give.
abbrev pub tally : Claim.TestSuiteResults → CertsuiteReportStatusSummary
tally results = record {
  total = length results;
  passed = count_of status_state_passed results;
  skipped = count_of status_state_skipped results;
  failed = count_of status_state_failed results;
  errored = count_of status_state_error results;
}

abbrev add :
    CertsuiteReportStatusSummary → CertsuiteReportStatusSummary → CertsuiteReportStatusSummary
add s t = record {
  total = s.total + t.total;
  passed = s.passed + t.passed;
  skipped = s.skipped + t.skipped;
  failed = s.failed + t.failed;
  errored = s.errored + t.errored;
}

add-tally :
    (n : String) (tc : Claim.TestCaseResult) (rest : Claim.TestSuiteResults)
    (s : CertsuiteReportStatusSummary)
    → add (count_state tc.state s) (tally rest) ≡ add s (tally ((n, tc) ∷ rest))
unfolding count_state count_of
add-tally n tc rest s = elim (state_case tc.state) [
  | passed p k f e ↦ simp (p, k, f, e) (ground arith)
  | skipped p k f e ↦ simp (p, k, f, e) (ground arith)
  | failed p k f e ↦ simp (p, k, f, e) (ground arith)
  | error p k f e ↦ simp (p, k, f, e) (ground arith)
  | unknown p k f e ↦ simp (p, k, f, e) (ground arith)
]

-- The counters of the loop, started anywhere, and one result for each entry.
pub collect-tally :
    (unmarshal : String → Option CheckDetails) (spec : CertsuiteRunSpec)
    (claim : Claim.TestSuiteResults) (s : CertsuiteReportStatusSummary) (out : List TestCaseResult)
    {s' : CertsuiteReportStatusSummary} {out' : List TestCaseResult}
    → collect unmarshal spec claim s out ≡ ok (s', out')
    → s' ≡ add s (tally claim)
unfolding collect count_of
collect-tally unmarshal spec [] s out h = ground arith
collect-tally unmarshal spec ((n, tc) ∷ rest) s out h =
    let (r, e, h') = >>=-ok (test_case_result unmarshal spec n tc) _ h in
    collect-tally unmarshal spec rest (count_state tc.state s) (out ++ r ∷ []) h'
    ∙ add-tally n tc rest s

-- Some test case is in a state; all are.
pub any_state : String → Claim.TestSuiteResults → Bool
any_state state [] = false
any_state state ((n, tc) ∷ rest) = str_eq tc.state state || any_state state rest

pub all_state : String → Claim.TestSuiteResults → Bool
all_state state [] = true
all_state state ((n, tc) ∷ rest) = str_eq tc.state state && all_state state rest

any-count_of :
    (state : String) (rs : Claim.TestSuiteResults) → leb 1 (count_of state rs) ≡ any_state state rs
unfolding count_of any_state
any-count_of state [] = refl
any-count_of state ((n, tc) ∷ rest) = ground (arith, any-count_of state rest)

count_of-le : (state : String) (rs : Claim.TestSuiteResults) → count_of state rs ≤ length rs
unfolding count_of
count_of-le state [] = omega arith
count_of-le state ((n, tc) ∷ rest) = ground (arith, count_of-le state rest)

all-count_of :
    (state : String) (rs : Claim.TestSuiteResults)
    → (count_of state rs == length rs) ≡ all_state state rs
unfolding count_of all_state
all-count_of state [] = refl
all-count_of state ((n, tc) ∷ rest) =
    ground (arith, all-count_of state rest, count_of-le state rest)

-- The verdict that the claim's test cases call for.
abbrev pub verdict_of : Claim.TestSuiteResults → String
verdict_of rs =
    if any_state status_state_error rs
    then status_verdict_error
    else if any_state status_state_failed rs
    then status_verdict_fail
    else if all_state status_state_skipped rs
    then status_verdict_skip
    else status_verdict_pass

verdict-tally : (rs : Claim.TestSuiteResults) → verdict (tally rs) ≡ verdict_of rs
unfolding verdict
verdict-tally rs =
    rw (any-count_of status_state_error rs)
      (rw (any-count_of status_state_failed rs) (rw (all-count_of status_state_skipped rs)))

-- Whenever the status is set: the resource changes in its report alone; the report's counters are
-- the numbers of all, passed, skipped, failed and errored test cases of the claim; and its
-- verdict is `error` if a test case errored, else `fail` if one failed, else `skip` if all were
-- skipped (or there is none), else `pass`.
pub set_run_cr_status-tally :
    (unmarshal : String → Option CheckDetails) (run_cr : CertsuiteRun) (claim : Schema)
    {run_cr' : CertsuiteRun}
    → set_run_cr_status unmarshal run_cr claim ≡ ok run_cr'
    → (report : CertsuiteReport) × (run_cr'
        ≡ record run_cr { status = record run_cr.status { report = some report } })
      × (report.summary ≡ tally claim.results)
      × (report.verdict ≡ verdict_of claim.results)
unfolding set_run_cr_status
set_run_cr_status-tally unmarshal run_cr claim h =
    let ((summary, results), e, h') =
      >>=-ok (collect unmarshal run_cr.spec claim.results no_tests []) _ h in
    let counted : summary ≡ tally claim.results =
      collect-tally unmarshal run_cr.spec claim.results no_tests [] e ∙ ground arith in
    (_, sym (ok_inj h'), counted, ap verdict counted ∙ verdict-tally claim.results)
