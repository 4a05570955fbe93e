-- ===== src/Report/Order.antt =====
-- A Go map has no order: what the sidecar reports does not depend on the order in which it goes
-- through the claim's results
-- (certsuite-sidecar/app/cnf-cert-suite-report/cnfcertsuitereport.go).
use mathlib.Core.List.{Forall₂, Permᴰ}
use cnf_certsuite_operator.Prelude.{
  suc, String, ◌≡◌, refl, sym, ap, ap₂, ◌∙◌, Bool, true, false, Option, some, List, [], ◌∷◌, length,
  arith,
}
use cnf_certsuite_operator.Go.{Result, ok, >>=-ok, ok_inj}
use cnf_certsuite_operator.Claim
use cnf_certsuite_operator.Claim.{Schema}
use cnf_certsuite_operator.Api.{
  CertsuiteRun, CertsuiteRunSpec, CertsuiteReport, TestCaseResult, CertsuiteReportStatusSummary,
  status_state_passed, status_state_skipped, status_state_failed, status_state_error,
}
use cnf_certsuite_operator.Report.{no_tests, collect, set_run_cr_status}
use cnf_certsuite_operator.Report.Details.{CheckDetails}
use cnf_certsuite_operator.Report.Summary.{count_of, tally, collect-tally}
use cnf_certsuite_operator.Report.Results.{Reported, collect-Reported}
use cnf_certsuite_operator.Report.Malformed.{all_reportable, ReturnsIff, collect-ReturnsIff}

abbrev Entry : Type 0
Entry = String × Claim.TestCaseResult

case_of : {a b : Entry} → a ≡ b → a.1 ≡ b.1
case_of e = ap (λ (x : Entry). x.1) e

count_of-perm :
    (state : String) {rs rs' : Claim.TestSuiteResults}
    → Permᴰ rs rs'
    → count_of state rs ≡ count_of state rs'
unfolding count_of
count_of-perm state Permᴰ.nil = refl
count_of-perm state (Permᴰ.cons e p) = ground (arith, case_of e, count_of-perm state p)
count_of-perm state (Permᴰ.swap e f) = ground (arith, case_of e, case_of f)
count_of-perm state (Permᴰ.trans p q) = count_of-perm state p ∙ count_of-perm state q

length-perm : {rs rs' : Claim.TestSuiteResults} → Permᴰ rs rs' → length rs ≡ length rs'
length-perm Permᴰ.nil = refl
length-perm (Permᴰ.cons e p) = ap suc (length-perm p)
length-perm (Permᴰ.swap e f) = refl
length-perm (Permᴰ.trans p q) = length-perm p ∙ length-perm q

tally-perm : {rs rs' : Claim.TestSuiteResults} → Permᴰ rs rs' → tally rs ≡ tally rs'
tally-perm p = ground (
  arith,
  length-perm p,
  count_of-perm status_state_passed p,
  count_of-perm status_state_skipped p,
  count_of-perm status_state_failed p,
  count_of-perm status_state_error p,
)

module _ (unmarshal : String → Option CheckDetails) (spec : CertsuiteRunSpec) where
  all_reportable-perm :
      {rs rs' : Claim.TestSuiteResults}
      → Permᴰ rs rs'
      → all_reportable unmarshal spec rs ≡ all_reportable unmarshal spec rs'
  unfolding all_reportable
  all_reportable-perm Permᴰ.nil = refl
  all_reportable-perm (Permᴰ.cons e p) = ground (arith, case_of e, all_reportable-perm p)
  all_reportable-perm (Permᴰ.swap e f) = ground (arith, case_of e, case_of f)
  all_reportable-perm (Permᴰ.trans p q) = all_reportable-perm p ∙ all_reportable-perm q

-- A relation carries a reordering over.
Forall₂-perm :
    {A B : Type 0} {R : A → B → Type 0} {xs xs' : List A} {ys : List B}
    → Permᴰ xs xs'
    → Forall₂ R xs ys
    → (ys' : List B) × Forall₂ R xs' ys' × Permᴰ ys ys'
Forall₂-perm Permᴰ.nil Forall₂.nil = ([], Forall₂.nil, Permᴰ.nil)
Forall₂-perm {R = R} (Permᴰ.cons e p) (Forall₂.cons {b = y} h hs) =
    let (ys', f, q) = Forall₂-perm p hs in (y ∷ ys', Forall₂.cons (rw e at h) f, Permᴰ.cons refl q)
Forall₂-perm (Permᴰ.swap e f) (Forall₂.cons {b = y} h (Forall₂.cons {b = z} {l₂ = zs} k hs)) =
    (z ∷ y ∷ zs, Forall₂.cons (rw f at k) (Forall₂.cons (rw e at h) hs), Permᴰ.swap refl refl)
Forall₂-perm (Permᴰ.trans p q) hs =
    let (ys', f, r) = Forall₂-perm p hs in
    let (ys'', g, r') = Forall₂-perm q f in (ys'', g, Permᴰ.trans r r')

Reported-unique :
    (unmarshal : String → Option CheckDetails) (spec : CertsuiteRunSpec)
    {xs : Claim.TestSuiteResults} {ys zs : List TestCaseResult}
    → Forall₂ (Reported unmarshal spec) xs ys
    → Forall₂ (Reported unmarshal spec) xs zs
    → ys ≡ zs
Reported-unique unmarshal spec Forall₂.nil Forall₂.nil = refl
Reported-unique unmarshal spec (Forall₂.cons h hs) (Forall₂.cons k ks) =
    ap₂ (λ y ys. y ∷ ys) (ok_inj (sym h ∙ k)) (Reported-unique unmarshal spec hs ks)

Returns-true : {A : Type 0} (b : Bool) (m : Result A) {a : A} → ReturnsIff b m → m ≡ ok a → b ≡ true
Returns-true true m h e = refl
Returns-true false m h e = cc (h.1)

-- Another order of the same results: the loop returns with the same counters and the same results
-- up to their order.
collect-perm :
    (unmarshal : String → Option CheckDetails) (spec : CertsuiteRunSpec)
    {rs rs' : Claim.TestSuiteResults} {s : CertsuiteReportStatusSummary} {out : List TestCaseResult}
    → Permᴰ rs rs'
    → collect unmarshal spec rs no_tests [] ≡ ok (s, out)
    → (out' : List TestCaseResult) × (collect unmarshal spec rs' no_tests [] ≡ ok (s, out'))
      × Permᴰ out out'
collect-perm unmarshal spec {rs} {rs'} {s} {out} p e =
    let all_ok : all_reportable unmarshal spec rs' ≡ true =
      sym (all_reportable-perm unmarshal spec p)
      ∙ Returns-true (all_reportable unmarshal spec rs) _
          (collect-ReturnsIff unmarshal spec rs no_tests []) e in
    let ((s', out'), e') : (a : CertsuiteReportStatusSummary × List TestCaseResult) × (collect
            unmarshal spec rs' no_tests []
          ≡ ok a) =
      rw all_ok at (collect-ReturnsIff unmarshal spec rs' no_tests []) in
    let same : s' ≡ s =
      collect-tally unmarshal spec rs' no_tests [] e'
      ∙ ground (arith, tally-perm p, collect-tally unmarshal spec rs no_tests [] e) in
    let (new, q, f) = collect-Reported unmarshal spec rs no_tests [] e in
    let (new', q', f') = collect-Reported unmarshal spec rs' no_tests [] e' in
    let (out'', g, r) = Forall₂-perm p f in
    let reordered : out' ≡ out'' = q' ∙ Reported-unique unmarshal spec f' g in
    (out', rw (← same) e', rw (q, reordered) r)

-- If the status is set for one order of the claim's results, it is set for every other, and the
-- reports have the same verdict, summary, versions and targets, and the same results up to order.
pub set_run_cr_status-perm :
    (unmarshal : String → Option CheckDetails) (run_cr : CertsuiteRun) (claim : Schema)
    {results' : Claim.TestSuiteResults} {run_cr' : CertsuiteRun}
    → Permᴰ claim.results results'
    → set_run_cr_status unmarshal run_cr claim ≡ ok run_cr'
    → (report : CertsuiteReport) × (report' : CertsuiteReport) × (run_cr'
        ≡ record run_cr { status = record run_cr.status { report = some report } })
      × (set_run_cr_status unmarshal run_cr (record claim { results = results' })
          ≡ ok (record run_cr { status = record run_cr.status { report = some report' } }))
      × (report' ≡ record report { results = report'.results })
      × Permᴰ report.results report'.results
unfolding set_run_cr_status
set_run_cr_status-perm unmarshal run_cr claim p h =
    let ((summary, results), e, h') =
      >>=-ok (collect unmarshal run_cr.spec claim.results no_tests []) _ h in
    let (out', e', q) = collect-perm unmarshal run_cr.spec p e in
    (_, _, sym (ok_inj h'), rw e', refl, q)
