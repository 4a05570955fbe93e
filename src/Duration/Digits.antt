-- ===== src/Duration/Digits.antt =====
-- A decimal number as the code points of its digits.
use Prim.Native.Char.{code}
use text.Mathlib.TextLemmas.{nil-append, cons-append}
use cnf_certsuite_operator.Prelude.{
  ℕ, zero, suc, ◌+◌, ◌-◌, ◌*◌, ◌/◌, ◌%◌, ◌≤◌, ◌<◌, String, ◌<>◌, ◌≡◌, refl, ap, ◌∙◌, inl, inr, true,
  List, [], ◌∷◌, ◌++◌, All, All-append, ltb, ltb→lt, arith, Bool-cases,
}
use cnf_certsuite_operator.Prelude.Decimal.{digit, digits, decimal, digits_short, digits_long}
use cnf_certsuite_operator.Duration.{codes, is_digit}

pub codes-append : (s t : String) → codes (s <> t) ≡ codes s ++ codes t
codes-append String.[] t = rw (nil-append t) refl
codes-append (String.◌∷◌ c s) t =
    rw (cons-append c s t) (ap (λ (l : List ℕ). code c ∷ l) (codes-append s t))

-- The value of a run of digits, behind a value.
unfoldable pub value_of : ℕ → List ℕ → ℕ
value_of acc [] = acc
value_of acc (c ∷ cs) = value_of (acc * 10 + (c - 48)) cs

value_of-append : (acc : ℕ) (l m : List ℕ) → value_of acc (l ++ m) ≡ value_of (value_of acc l) m
unfolding value_of
value_of-append acc [] m = refl
value_of-append acc (c ∷ cs) m = value_of-append (acc * 10 + (c - 48)) cs m

pub value_of_grows : (acc : ℕ) (l : List ℕ) → acc ≤ value_of acc l
unfolding value_of
value_of_grows acc [] = omega arith
value_of_grows acc (c ∷ cs) = omega (arith, value_of_grows (acc * 10 + (c - 48)) cs)

abbrev pub IsDigit : ℕ → Type 0
IsDigit c = is_digit c ≡ true

-- A text of digits, at least one, that reads as `n`.
pub record Reads (n : ℕ) (l : List ℕ) : Type 0 where
  pub first : ℕ
  pub rest : List ℕ
  pub split : l ≡ first ∷ rest
  pub digits_only : All IsDigit (first ∷ rest)
  pub value_is : value_of 0 (first ∷ rest) ≡ n

digit-Reads : (d : ℕ) → d < 10 → codes (digit d) ≡ (48 + d) ∷ []
unfolding digit
digit-Reads zero h = refl
digit-Reads (suc zero) h = refl
digit-Reads (suc (suc zero)) h = refl
digit-Reads (suc (suc (suc zero))) h = refl
digit-Reads (suc (suc (suc (suc zero)))) h = refl
digit-Reads (suc (suc (suc (suc (suc zero))))) h = refl
digit-Reads (suc (suc (suc (suc (suc (suc zero)))))) h = refl
digit-Reads (suc (suc (suc (suc (suc (suc (suc zero))))))) h = refl
digit-Reads (suc (suc (suc (suc (suc (suc (suc (suc zero)))))))) h = refl
digit-Reads (suc (suc (suc (suc (suc (suc (suc (suc (suc zero))))))))) h = refl
digit-Reads (suc (suc (suc (suc (suc (suc (suc (suc (suc (suc d)))))))))) h =
    absurd (omega (arith, h))

digits-Reads : (f n : ℕ) → n < f → Reads n (codes (digits f n))
unfolding value_of
digits-Reads zero n h = elim h [ ]
digits-Reads (suc f) n h = elim (Bool-cases (ltb n 10)) [
  | inl short ↦ rw (digits_short f n short) (
      rw (digit-Reads n (ltb→lt n 10 short)) (record {
        first = 48 + n;
        rest = [];
        split = refl;
        digits_only = (ground arith, tt);
        value_is = omega arith;
      }))
  | inr long ↦
      let before = digits-Reads f (n / 10) (ground arith) in
      rw (digits_long f n long) (
        rw (codes-append (digits f (n / 10)) (digit (n % 10))) (
          rw (digit-Reads (n % 10) (omega arith)) (record {
            first = before.first;
            rest = before.rest ++ (48 + n % 10) ∷ [];
            split = ap (λ (l : List ℕ). l ++ (48 + n % 10) ∷ []) before.split;
            digits_only =
                All-append IsDigit (before.first ∷ before.rest) ((48 + n % 10) ∷ [])
                  before.digits_only (ground arith, tt);
            value_is =
                value_of-append 0 (before.first ∷ before.rest) ((48 + n % 10) ∷ [])
                ∙ (rw before.value_is (omega arith));
          })))
]

pub decimal-Reads : (n : ℕ) → Reads n (codes (decimal n))
unfolding decimal
decimal-Reads n = digits-Reads (suc n) n (omega arith)
