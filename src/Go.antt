-- ===== src/Go.antt =====
-- What a Go call does: it returns a value, it returns an error, or it panics. The errors are those
-- of the Kubernetes API, which carry a reason, and those that the program makes from a text.
use cnf_certsuite_operator.Prelude.{String, Bool, true, false, Option, none, some, ◌≡◌, refl, arith}

-- metav1.StatusReason, as far as the program asks for it.
pub data StatusReason : Type 0 where
  not_found already_exists conflict invalid other_reason : StatusReason

-- `errorf` is `fmt.Errorf` with `%v`: the reason of an error that it prints is lost.
pub data Error : Type 0 where
  api : StatusReason → String → Error
  errorf : String → Error

-- err.Error()
abbrev pub error_text : Error → String
error_text (api r s) = s
error_text (errorf s) = s

-- The tests and the filter of k8s.io/apimachinery's `errors` and controller-runtime's `client`.
abbrev pub is_not_found : Error → Bool
is_not_found (api not_found s) = true
is_not_found _ = false

abbrev pub is_already_exists : Error → Bool
is_already_exists (api already_exists s) = true
is_already_exists _ = false

abbrev pub ignore_not_found : Error → Option Error
ignore_not_found (api not_found s) = none
ignore_not_found e = some e

pub data Panic : Type 0 where
  nil_dereference index_out_of_range type_assertion explicit : Panic

-- A call of type `(A, error)`.
pub data Result {ℓ} (A : Type ℓ) : Type ℓ where
  ok : A → Result A
  err : Error → Result A
  panic : Panic → Result A

-- `if err != nil { return err }`, and a panic that nothing recovers.
infixl 5 ◌>>=◌
abbrev pub ◌>>=◌ {ℓ κ} : {A : Type ℓ} {B : Type κ} → Result A → (A → Result B) → Result B
panic why >>= next = panic why
err why >>= next = err why
ok value >>= next = next value

-- A call that returns through `>>=` returned in both its parts.
pub >>=-ok {ℓ κ} :
    {A : Type ℓ} {B : Type κ} (call : Result A) (next : A → Result B) {y : B}
    → call >>= next ≡ ok y
    → (x : A) × (call ≡ ok x) × (next x ≡ ok y)
>>=-ok (panic why) next returned = cc
>>=-ok (err why) next returned = cc
>>=-ok (ok value) next returned = (value, refl, returned)

pub ok_inj {ℓ} : {A : Type ℓ} {a b : A} → ok a ≡ ok b → a ≡ b
ok_inj h = ground arith
