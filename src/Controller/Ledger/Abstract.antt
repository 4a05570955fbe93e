-- ===== src/Controller/Ledger/Abstract.antt =====
-- A ledger of runs, as the abstract specification of the registry of
-- internal/controller/certsuiterun_controller.go, and what a request does to it.
use cnf_certsuite_operator.Prelude.{
  ℕ, ◌+◌, String, ◌≡◌, Bool, Option, none, some, List, [], ◌∷◌, ◌++◌, if◌then◌else◌,
}
use cnf_certsuite_operator.Go.{Error}
use cnf_certsuite_operator.Api.{NamespacedName, CertsuiteRun}
use cnf_certsuite_operator.Controller.Cluster.{Answer, found, failure}
use cnf_certsuite_operator.Controller.State.{name_eq}
use cnf_certsuite_operator.Controller.Registry.{HasPod, HasNoPod}

-- `number` is the number of a run that is known, `count` how many were started, `pods` the numbers of
-- those whose pod was sent to be created, and `removed` the pods sent to be deleted, by their
-- namespaces and numbers.
pub record Ledger : Type 0 where
  pub number : NamespacedName → Option ℕ
  pub count : ℕ
  pub pods : List ℕ
  pub removed : List (String × ℕ)

abbrev pub put : NamespacedName → Option ℕ → (NamespacedName → Option ℕ) → NamespacedName → Option ℕ
put req o f k = if name_eq req k then o else f k

-- What a request does, by the answer to the read of its resource. A resource without a pod takes the next
-- number, whether or not its pod is sent; it does so also where the run has a number already, of which the
-- pod is not removed. A run whose resource is not read is forgotten with its pod.
pub data Moves (req : NamespacedName) (a : Answer CertsuiteRun) (b b' : Ledger) : Type 0 where
  absent : (e : Error) → a ≡ failure e → b.number req ≡ none → b' ≡ b → Moves req a b b'
  watches : (r : CertsuiteRun) → a ≡ found r → HasPod r → b' ≡ b → Moves req a b b'
  begins :
      (r : CertsuiteRun) (sent : Bool)
      → a ≡ found r
      → HasNoPod r
      → b' ≡ record b {
        number = put req (some (b.count + 1)) b.number;
        count = b.count + 1;
        pods = if sent then b.pods ++ (b.count + 1) ∷ [] else b.pods;
      }
      → Moves req a b b'
  ends :
      (e : Error) (n : ℕ)
      → a ≡ failure e
      → b.number req ≡ some n
      → b' ≡ record b {
        number = put req none b.number;
        removed = b.removed ++ (req.namespace, n) ∷ [];
      }
      → Moves req a b b'

abbrev pub opened : Ledger
opened = record { number = λ k. none; count = 0; pods = []; removed = [] }
