-- ===== src/Controller/Cluster.antt =====
-- What the reconcilers of internal/controller use of Kubernetes: the client of
-- sigs.k8s.io/controller-runtime, the clock, and `retry` of k8s.io/client-go. Whatever else
-- happens in the cluster between two calls is part of the world's next state. A call that has
-- been made is recorded, with what it sends, in the order of the calls; the program does not read
-- the record.
use cnf_certsuite_operator.Prelude.{ℕ, String, ◌≡◌, Option, some, refl, ap, ◌⊎◌, inl, inr}
use cnf_certsuite_operator.Prelude.Eq.{string_eq}
use cnf_certsuite_operator.Go.{Error, api, conflict}
use cnf_certsuite_operator.Pod.{Pod}
use cnf_certsuite_operator.Api.{NamespacedName, CertsuiteRun}

-- The object that `Get` fills in, or its error.
pub data Answer {ℓ} (A : Type ℓ) : Type ℓ where
  found : A → Answer A
  failure : Error → Answer A

pub found_inj {ℓ} : {A : Type ℓ} {x y : A} → found x ≡ found y → x ≡ y
found_inj {x = x} e = ap (λ a. elim a [ found z ↦ z | failure w ↦ x ]) e

pub Answer-cases {ℓ} :
    {A : Type ℓ} (a : Answer A) → ((e : Error) × (a ≡ failure e)) ⊎ ((x : A) × (a ≡ found x))
Answer-cases (failure e) = inl (e, refl)
Answer-cases (found x) = inr (x, refl)

-- RetryOnConflict: the function runs once or more, again only after a conflict, and the last run's
-- error is the result.
pub data Attempts {S : Type 0} (fn : S → Option Error × S) : S → Option Error × S → Type 0 where
  last : {s : S} → Attempts fn s (fn s)
  again :
      {s : S} {r : Option Error × S} (text : String)
      → (fn s).0 ≡ some (api conflict text)
      → Attempts fn (fn s).1 r
      → Attempts fn s r

-- A retried function keeps what each of its runs keeps.
pub Attempts-keep :
    {S : Type 0} (P : S → Type 0) (fn : S → Option Error × S)
    → ((s : S) → P s → P (fn s).1)
    → {s : S} {r : Option Error × S} → Attempts fn s r
    → P s
    → P r.1
Attempts-keep P fn keep (last {s = s}) h = keep s h
Attempts-keep P fn keep (again {s = s} text e rest) h = Attempts-keep P fn keep rest (keep s h)

pub record Cluster : Type 1 where
  pub World : Type 0
  pub get_run : NamespacedName → World → Answer CertsuiteRun × World
  pub get_pod : NamespacedName → World → Answer Pod × World
  pub update_run_status : CertsuiteRun → World → Option Error × World
  pub create_pod : Pod → World → Option Error × World
  pub delete_pod : NamespacedName → World → Option Error × World
  -- time.Now, in nanoseconds since Go's zero time
  pub now : World → ℕ
  pub retry_on_conflict : (S : Type 0) → (S → Option Error × S) → S → Option Error × S
  pub retry_attempts :
      (S : Type 0) (fn : S → Option Error × S) (s : S) → Attempts fn s (retry_on_conflict S fn s)

-- The calls that reach the API server.
pub data Call : Type 0 where
  get_run get_pod delete_pod : NamespacedName → Call
  update_run_status : CertsuiteRun → Call
  create_pod : Pod → Call
