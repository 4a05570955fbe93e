-- ===== src/Report/Malformed.antt =====
-- Which claims make the sidecar panic: the check details of a test case whose targets are shown
-- hold an object without its two lists of strings, or with fewer values than keys
-- (certsuite-sidecar/app/cnf-cert-suite-report/cnfcertsuitereport.go).
use cnf_certsuite_operator.Prelude.{
  String, ◌≡◌, refl, Bool, true, false, ◌&&◌, Option, none, some, List, [], ◌∷◌, ◌++◌, str_eq,
  if◌then◌else◌,
}
use cnf_certsuite_operator.Prelude.Eq.{string_eq}
use cnf_certsuite_operator.Prelude.Dict.{Dict, lookup, insert}
use cnf_certsuite_operator.Go.{Result, Panic, ok, panic, ◌>>=◌}
use cnf_certsuite_operator.Claim
use cnf_certsuite_operator.Claim.{Schema, Value, Values, str, list, other, nil, cons}
use cnf_certsuite_operator.Api.{
  CertsuiteRun, CertsuiteRunSpec, TestCaseResult, CertsuiteReportStatusSummary, TargetResource,
}
use cnf_certsuite_operator.Report.{
  no_tests, count_state, describe, set_decoded_targets, shows_targets, set_test_case_targets,
  test_case_result, collect, set_run_cr_status,
}
use cnf_certsuite_operator.Report.Details.{
  CheckDetails, as_list, fill_target, target_resource, get_target_resources_from_claim,
}

-- As many values as keys at least, and all of those strings.
pub fits : Values → Values → Bool
fits nil vs = true
fits (cons (str k) ks) (cons (str v) vs) = fits ks vs
fits _ _ = false

both_fit : Option Value → Option Value → Bool
unfolding fits
both_fit (some (list ks)) (some (list vs)) = fits ks vs
both_fit _ _ = false

-- An object of the check details that has its two lists.
pub is_readable : Dict String Value → Bool
unfolding both_fit
is_readable c = both_fit (lookup "ObjectFieldsKeys" c) (lookup "ObjectFieldsValues" c)

pub all_readable : List (Dict String Value) → Bool
unfolding is_readable
all_readable [] = true
all_readable (c ∷ cs) = is_readable c && all_readable cs

-- A call returns, or it panics, as the test says; it never returns an error.
abbrev pub ReturnsIff {ℓ} : {A : Type ℓ} → Bool → Result A → Type ℓ
ReturnsIff {A} true r = (a : A) × (r ≡ ok a)
ReturnsIff {A} false r = (p : Panic) × (r ≡ panic p)

fill_target-ReturnsIff :
    (t : TargetResource) (ks vs : Values) → ReturnsIff (fits ks vs) (fill_target t ks vs)
unfolding fits fill_target
fill_target-ReturnsIff t nil vs = (t, refl)
fill_target-ReturnsIff t (cons (str k) ks) (cons (str v) vs) =
    fill_target-ReturnsIff (insert k v t) ks vs
fill_target-ReturnsIff t (cons (str k) ks) (cons (list v) vs) = (_, refl)
fill_target-ReturnsIff t (cons (str k) ks) (cons other vs) = (_, refl)
fill_target-ReturnsIff t (cons (str k) ks) nil = (_, refl)
fill_target-ReturnsIff t (cons (list k) ks) nil = (_, refl)
fill_target-ReturnsIff t (cons other ks) nil = (_, refl)
fill_target-ReturnsIff t (cons (list k) ks) (cons v vs) = (_, refl)
fill_target-ReturnsIff t (cons other ks) (cons v vs) = (_, refl)

read_lists : Option Value → Option Value → Result TargetResource
read_lists ks vs = as_list ks >>= λ k. as_list vs >>= λ v. fill_target [] k v

read_lists-ReturnsIff : (ks vs : Option Value) → ReturnsIff (both_fit ks vs) (read_lists ks vs)
unfolding both_fit read_lists
read_lists-ReturnsIff (some (list ks)) (some (list vs)) = fill_target-ReturnsIff [] ks vs
read_lists-ReturnsIff (some (list ks)) (some (str v)) = (_, refl)
read_lists-ReturnsIff (some (list ks)) (some other) = (_, refl)
read_lists-ReturnsIff (some (list ks)) none = (_, refl)
read_lists-ReturnsIff (some (str k)) vs = (_, refl)
read_lists-ReturnsIff (some other) vs = (_, refl)
read_lists-ReturnsIff none vs = (_, refl)

target_resource-ReturnsIff :
    (c : Dict String Value) → ReturnsIff (is_readable c) (target_resource c)
unfolding is_readable target_resource read_lists
target_resource-ReturnsIff c =
    read_lists-ReturnsIff (lookup "ObjectFieldsKeys" c) (lookup "ObjectFieldsValues" c)

-- Two calls in a row.
ReturnsIff-bind {ℓ κ} :
    {A : Type ℓ} {B : Type κ} (a b : Bool) (m : Result A) (f : A → Result B)
    → ReturnsIff a m
    → ((x : A) → ReturnsIff b (f x))
    → ReturnsIff (a && b) (m >>= f)
ReturnsIff-bind true b m f h k = rw h.1 (k h.0)
ReturnsIff-bind false b m f h k = (h.0, rw h.1)

ReturnsIff-map {ℓ κ} :
    {A : Type ℓ} {B : Type κ} (b : Bool) (m : Result A) (f : A → B)
    → ReturnsIff b m
    → ReturnsIff b (m >>= λ x. ok (f x))
ReturnsIff-map true m f h = (f h.0, rw h.1)
ReturnsIff-map false m f h = (h.0, rw h.1)

ReturnsIff-if {ℓ} :
    {A : Type ℓ} (t a b : Bool) (x y : Result A)
    → ReturnsIff a x
    → ReturnsIff b y
    → ReturnsIff (if t then a else b) (if t then x else y)
ReturnsIff-if true a b x y h k = h
ReturnsIff-if false a b x y h k = k

get_target_resources-ReturnsIff :
    (cs : List (Dict String Value))
    → ReturnsIff (all_readable cs) (get_target_resources_from_claim cs)
unfolding all_readable get_target_resources_from_claim
get_target_resources-ReturnsIff [] = ([], refl)
get_target_resources-ReturnsIff (c ∷ cs) =
    ReturnsIff-bind (is_readable c) (all_readable cs) (target_resource c) _
      (target_resource-ReturnsIff c)
      λ t. ReturnsIff-map (all_readable cs) _ (λ ts. t ∷ ts) (get_target_resources-ReturnsIff cs)

module _ (unmarshal : String → Option CheckDetails) where
  decoded_readable : Option CheckDetails → Bool
  unfolding all_readable
  decoded_readable none = true
  decoded_readable (some d) = all_readable d.compliant && all_readable d.non_compliant

  -- Empty details and details that do not decode are skipped, not read.
  pub details_readable : String → Bool
  unfolding decoded_readable
  details_readable s = if str_eq s "" then true else decoded_readable (unmarshal s)

  -- The test case can be reported.
  pub is_reportable : CertsuiteRunSpec → Claim.TestCaseResult → Bool
  unfolding details_readable
  is_reportable spec tc =
      if shows_targets spec tc.state then details_readable tc.check_details else true

  unfoldable pub all_reportable : CertsuiteRunSpec → Claim.TestSuiteResults → Bool
  unfolding is_reportable
  all_reportable spec [] = true
  all_reportable spec ((n, tc) ∷ rest) = is_reportable spec tc && all_reportable spec rest

  set_decoded_targets-ReturnsIff :
      (d : Option CheckDetails) (r : TestCaseResult)
      → ReturnsIff (decoded_readable d) (set_decoded_targets d r)
  unfolding decoded_readable set_decoded_targets
  set_decoded_targets-ReturnsIff none r = (r, refl)
  set_decoded_targets-ReturnsIff (some d) r =
      ReturnsIff-bind (all_readable d.compliant) (all_readable d.non_compliant)
        (get_target_resources_from_claim d.compliant) _
        (get_target_resources-ReturnsIff d.compliant)
        λ c.
          ReturnsIff-map (all_readable d.non_compliant) _ _
            (get_target_resources-ReturnsIff d.non_compliant)

  set_test_case_targets-ReturnsIff :
      (s : String) (r : TestCaseResult)
      → ReturnsIff (details_readable s) (set_test_case_targets unmarshal s r)
  unfolding details_readable set_test_case_targets
  set_test_case_targets-ReturnsIff s r =
      ReturnsIff-if (str_eq s "") true (decoded_readable (unmarshal s)) _ _ (r, refl)
        (set_decoded_targets-ReturnsIff (unmarshal s) r)

  test_case_result-ReturnsIff :
      (spec : CertsuiteRunSpec) (n : String) (tc : Claim.TestCaseResult)
      → ReturnsIff (is_reportable spec tc) (test_case_result unmarshal spec n tc)
  unfolding is_reportable test_case_result
  test_case_result-ReturnsIff spec n tc = ReturnsIff-map (is_reportable spec tc) _ _ (
      ReturnsIff-if (shows_targets spec tc.state) (details_readable tc.check_details) true _ _
        (set_test_case_targets-ReturnsIff tc.check_details (describe n tc)) (describe n tc, refl))

  pub collect-ReturnsIff :
      (spec : CertsuiteRunSpec) (claim : Claim.TestSuiteResults) (s : CertsuiteReportStatusSummary)
      (out : List TestCaseResult)
      → ReturnsIff (all_reportable spec claim) (collect unmarshal spec claim s out)
  unfolding all_reportable collect
  collect-ReturnsIff spec [] s out = (_, refl)
  collect-ReturnsIff spec ((n, tc) ∷ rest) s out =
      ReturnsIff-bind (is_reportable spec tc) (all_reportable spec rest)
        (test_case_result unmarshal spec n tc) _ (test_case_result-ReturnsIff spec n tc)
        λ r. collect-ReturnsIff spec rest (count_state tc.state s) (out ++ r ∷ [])

  -- The sidecar sets the status, and does not fail, exactly if every test case whose targets are
  -- shown has check details that are empty, do not decode, or hold in each object its two lists of
  -- strings with a value for every key. Otherwise it panics; it never returns an error.
  pub set_run_cr_status-ReturnsIff :
      (run_cr : CertsuiteRun) (claim : Schema)
      → ReturnsIff
          (all_reportable run_cr.spec claim.results)
          (set_run_cr_status unmarshal run_cr claim)
  unfolding set_run_cr_status
  set_run_cr_status-ReturnsIff run_cr claim =
      ReturnsIff-map (all_reportable run_cr.spec claim.results) _ _
        (collect-ReturnsIff run_cr.spec claim.results no_tests [])
