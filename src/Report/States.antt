-- ===== src/Report/States.antt =====
-- The states of a test case, as the `switch` of
-- certsuite-sidecar/app/cnf-cert-suite-report/cnfcertsuitereport.go tells them apart.
use cnf_certsuite_operator.Prelude.{
  String, ◌≡◌, refl, inl, inr, true, false, str_eq, eq_iff, Bool-cases,
}
use cnf_certsuite_operator.Api.{
  status_state_passed, status_state_skipped, status_state_failed, status_state_error,
}

-- What the tests of the `switch` say of a state: at most one of them holds.
pub data StateCase (s : String) : Type 0 where
  passed :
      str_eq s status_state_passed ≡ true
      → str_eq s status_state_skipped ≡ false
      → str_eq s status_state_failed ≡ false
      → str_eq s status_state_error ≡ false
      → StateCase s
  skipped :
      str_eq s status_state_passed ≡ false
      → str_eq s status_state_skipped ≡ true
      → str_eq s status_state_failed ≡ false
      → str_eq s status_state_error ≡ false
      → StateCase s
  failed :
      str_eq s status_state_passed ≡ false
      → str_eq s status_state_skipped ≡ false
      → str_eq s status_state_failed ≡ true
      → str_eq s status_state_error ≡ false
      → StateCase s
  error :
      str_eq s status_state_passed ≡ false
      → str_eq s status_state_skipped ≡ false
      → str_eq s status_state_failed ≡ false
      → str_eq s status_state_error ≡ true
      → StateCase s
  unknown :
      str_eq s status_state_passed ≡ false
      → str_eq s status_state_skipped ≡ false
      → str_eq s status_state_failed ≡ false
      → str_eq s status_state_error ≡ false
      → StateCase s

is_ne : (s t u : String) → str_eq t u ≡ false → str_eq s t ≡ true → str_eq s u ≡ false
is_ne s t u h e = rw ((eq_iff s t).0 e) h

pub state_case : (s : String) → StateCase s
state_case s = elim (Bool-cases (str_eq s status_state_passed)) [
  | inl p ↦ passed p (is_ne s _ _ refl p) (is_ne s _ _ refl p) (is_ne s _ _ refl p)
  | inr np ↦ elim (Bool-cases (str_eq s status_state_skipped)) [
    | inl k ↦ skipped np k (is_ne s _ _ refl k) (is_ne s _ _ refl k)
    | inr nk ↦ elim (Bool-cases (str_eq s status_state_failed)) [
      | inl f ↦ failed np nk f (is_ne s _ _ refl f)
      | inr nf ↦ elim (Bool-cases (str_eq s status_state_error)) [
        | inl e ↦ error np nk nf e
        | inr ne ↦ unknown np nk nf ne
      ]
    ]
  ]
]
