-- ===== src/Action.antt =====
-- A Go method over a state: it returns, fails or panics, and leaves a state behind in each case.
use cnf_certsuite_operator.Prelude.{◌≡◌, ap, Bool, true, false, if◌then◌else◌}
use cnf_certsuite_operator.Go.{Error, Result, ok, err, panic}

abbrev pub Action : Type 0 → Type 0 → Type 0
Action S A = S → Result A × S

unfoldable pub return : {S A : Type 0} → A → Action S A
return a s = (ok a, s)

unfoldable pub fail : {S A : Type 0} → Error → Action S A
fail e s = (err e, s)

unfoldable pub lift : {S A : Type 0} → Result A → Action S A
lift r s = (r, s)

module _ {S A B : Type 0} where
  abbrev pub continue : Result A → (A → Action S B) → Action S B
  continue (ok a) f s = f a s
  continue (err e) f s = (err e, s)
  continue (panic p) f s = (panic p, s)

  infixl 5 ◌>>=◌ ◌>>◌
  -- Opening this opens `return`, `fail` and `lift` too.
  unfoldable pub ◌>>=◌ : Action S A → (A → Action S B) → Action S B
  unfolding return fail lift
  ◌>>=◌ m f s = let (r, s') = m s in continue r f s'

  abbrev pub ◌>>◌ : Action S A → Action S B → Action S B
  m >> n = m >>= λ _. n

module _ {S A B : Type 0} where
  -- After an action that returns, the rest goes on from its state.
  pub bind_ok :
      (m : Action S A) (f : A → Action S B) {s t : S} {a : A}
      → m s ≡ (ok a, t)
      → (m >>= f) s ≡ f a t
  unfolding ◌>>=◌
  bind_ok m f e = ap (λ (p : Result A × S). continue p.0 f p.1) e

-- Whether the action returns, fails or panics, it leads from a state that satisfies `P` to one that
-- satisfies `Q`.
pub record Leads {S A : Type 0} (P Q : S → Type 0) (m : Action S A) : Type 0 where
  pub at : (s : S) → P s → Q (m s).1

module _ {S A : Type 0} (P : S → Type 0) where
  pub Leads-return : (a : A) → Leads P P (return a)
  unfolding return
  Leads-return a = record { at = λ s h. h }

  pub Leads-fail : (e : Error) → Leads P P (fail {A = A} e)
  unfolding fail
  Leads-fail e = record { at = λ s h. h }

  pub Leads-lift : (r : Result A) → Leads P P (lift r)
  unfolding lift
  Leads-lift r = record { at = λ s h. h }

module _ {S A B : Type 0} {P Q : S → Type 0} where
  -- The rest keeps what the first action has established.
  pub Leads-bind :
      (m : Action S A) (f : A → Action S B)
      → Leads P Q m
      → ((a : A) → Leads Q Q (f a))
      → Leads P Q (m >>= f)
  unfolding ◌>>=◌
  Leads-bind m f km kf = record { at = λ s h. let (r, t) = m s in go r t (km.at s h) }
    where
      go : (r : Result A) (t : S) → Q t → Q (continue r f t).1
      go (ok a) t q = (kf a).at t q
      go (err e) t q = q
      go (panic p) t q = q

module _ {S A : Type 0} {P Q : S → Type 0} where
  pub Leads-if :
      (b : Bool) (m n : Action S A) → Leads P Q m → Leads P Q n → Leads P Q (if b then m else n)
  Leads-if true m n km kn = km
  Leads-if false m n km kn = kn
