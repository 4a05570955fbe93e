-- ===== src/Controller/Ledger.antt =====
-- The ledger of runs that the reconciler of internal/controller/certsuiterun_controller.go keeps, as an
-- abstract specification: runs have numbers, and a function gives the number of a run that is known.
-- Its map, its counter and the calls that it has made implement this ledger.
pub mod Abstract
use mathlib.Core.List.{map-append}
use mathlib.Core.Option
use cnf_certsuite_operator.Prelude.{
  ℕ, ◌+◌, ◌^◌, ◌≤◌, ◌<◌, String, ◌<>◌, ◌≡◌, refl, sym, ap, ap₂, some_inj, ◌∙◌, Bool, true, false,
  Option, none, some, inl, inr, List, [], ◌∷◌, ◌++◌, map, arith, lt→ltb, Bool-cases, if◌then◌else◌,
}
use cnf_certsuite_operator.Prelude.Decimal.{decimal}
use cnf_certsuite_operator.Prelude.Dict.{lookup, erase, lookup-insert, lookup-erase}
use cnf_certsuite_operator.Go.{Error}
use cnf_certsuite_operator.Controller.Ledger.Abstract.{
  Ledger, put, Moves, absent, watches, begins, ends, opened,
}
use cnf_certsuite_operator.Pod.{Pod}
use cnf_certsuite_operator.Api.{NamespacedName, CertsuiteRun}
use cnf_certsuite_operator.Controller.Cluster.{Cluster, Answer, failure}
use cnf_certsuite_operator.Controller.State.{
  State, setup_with_manager, NamespacedName_eq, name_eq, next_int, format_int,
}
use cnf_certsuite_operator.Controller.Reconcile.{pod_name_of}
use cnf_certsuite_operator.Controller.Frame.{View, view, created, deleted}
use cnf_certsuite_operator.Controller.Registry.{
  Change, unknown, forgotten, watched, not_launched, launched, registered, reconcile-Change,
}
use cnf_certsuite_operator.Controller.Names.{pod_names}
use cnf_certsuite_operator.Controller.Reached.{Reach, start, request, elsewhere}

-- The ledgers over a sequence of requests and of changes elsewhere: one move for each request, by
-- what the cluster answers it.
abbrev pub Kept :
    {C : Cluster} {fraction : ℕ → ℕ → ℕ → ℕ} {n : ℕ} {s : State C.World}
    → Reach C fraction n s
    → Ledger
    → Type 0
Kept (start image w) b = b ≡ opened
Kept {C = C} (request {s = s} req before) b' =
    (b : Ledger) × Kept before b × Moves req (C.get_run req s.world).0 b b'
Kept (elsewhere w before) b = Kept before b

abbrev pub numbered : ℕ → String
numbered i = "certsuite-job-run" <> ("-" <> decimal i)

abbrev pub in_namespace : String × ℕ → NamespacedName
in_namespace p = record { namespace = p.0; name = numbered p.1 }

pub record Implements (n : ℕ) (b : Ledger) (v : View) : Type 0 where
  pub bounded : b.count ≤ n
  pub id_is : v.id ≡ b.count
  pub runs_are : (k : NamespacedName) → lookup k v.runs ≡ Option.map numbered (b.number k)
  pub pods_are : pod_names v.pods ≡ map numbered b.pods
  pub names_are : v.names ≡ map in_namespace b.removed

module _ (n : ℕ) (b : Ledger) (v : View) (i : Implements n b v) (req : NamespacedName)
    (small : n + 1 < 2 ^ 63) where
  next_id : next_int v.id ≡ b.count + 1
  next_id = ground (arith, i.id_is, i.bounded)

  next_name : pod_name_of (next_int v.id) ≡ numbered (b.count + 1)
  unfolding pod_name_of format_int
  next_name = rw next_id (rw (lt→ltb (b.count + 1) (2 ^ 63) (omega (arith, i.bounded))) refl)

  number_put :
      (o : Option String) (x : Option ℕ) (k : NamespacedName)
      → o ≡ Option.map numbered x
      → (if name_eq req k then o else lookup k v.runs) ≡ Option.map numbered (put req x b.number k)
  number_put o x k e = elim (Bool-cases (name_eq req k)) [
    | inl same ↦ rw same e
    | inr other ↦ rw other (i.runs_are k)
  ]

  registered_runs :
      (k : NamespacedName)
      → lookup k (registered req v).runs
        ≡ Option.map numbered (put req (some (b.count + 1)) b.number k)
  registered_runs k =
      lookup-insert req k (pod_name_of (next_int v.id)) v.runs
      ∙ number_put _ _ k (ap some next_name)

  same-Implements : Implements (n + 1) b v
  same-Implements = record {
    bounded = omega (arith, i.bounded);
    id_is = i.id_is;
    runs_are = i.runs_are;
    pods_are = i.pods_are;
    names_are = i.names_are;
  }

  begun-Implements :
      (pods : List ℕ) (sent : List Pod)
      → pod_names sent ≡ map numbered pods
      → Implements
          (n + 1)
          (record b {
            number = put req (some (b.count + 1)) b.number;
            count = b.count + 1;
            pods = pods;
          })
          (record (registered req v) { pods = sent })
  begun-Implements pods sent e = record {
    bounded = omega (arith, i.bounded);
    id_is = next_id;
    runs_are = registered_runs;
    pods_are = e;
    names_are = i.names_are;
  }

  one_more :
      (pod : Pod)
      → pod.name ≡ pod_name_of (next_int v.id)
      → pod_names (v.pods ++ pod ∷ []) ≡ map numbered (b.pods ++ (b.count + 1) ∷ [])
  one_more pod e =
      map-append (λ (p : Pod). p.name) v.pods (pod ∷ [])
      ∙ ap₂ (λ (l : List String) (x : String). l ++ x ∷ []) i.pods_are (e ∙ next_name)
      ∙ sym (map-append numbered b.pods ((b.count + 1) ∷ []))

  none_given : (o : Option ℕ) → Option.map numbered o ≡ none → o ≡ none
  none_given none e = refl
  none_given (some m) e = cc

  forgotten-Moves :
      {a : Answer CertsuiteRun} (x : Error) (name : String) (o : Option ℕ)
      → a ≡ failure x
      → b.number req ≡ o
      → Option.map numbered o ≡ some name
      → (b' : Ledger) × Moves req a b b'
        × Implements (n + 1) b' (record v {
          runs = erase req v.runs;
          names = v.names ++ record { namespace = req.namespace; name = name } ∷ [];
        })
  forgotten-Moves x name none ae known e = cc
  forgotten-Moves x name (some m) ae known e = (
    _,
    ends x m ae known refl,
    record {
      bounded = omega (arith, i.bounded);
      id_is = i.id_is;
      runs_are = λ k. lookup-erase req k v.runs ∙ number_put none none k refl;
      pods_are = i.pods_are;
      names_are =
          ap₂
            (λ (l : List NamespacedName) (x : String).
              l ++ record { namespace = req.namespace; name = x } ∷ [])
            i.names_are (sym (some_inj e))
          ∙ sym (map-append in_namespace b.removed ((req.namespace, m) ∷ []));
    },
  )

  pub Change-Moves :
      (a : Answer CertsuiteRun) (w : View)
      → Change req v a w
      → (b' : Ledger) × Moves req a b b' × Implements (n + 1) b' w
  Change-Moves a w (unknown e ae none_found same) = (
    b,
    absent e ae (none_given (b.number req) (sym (i.runs_are req) ∙ none_found)) refl,
    rw same same-Implements,
  )
  Change-Moves a w (watched run_cr ae has same) =
      (b, watches run_cr ae has refl, rw same same-Implements)
  Change-Moves a w (forgotten e name ae found_name gone) =
      rw gone (forgotten-Moves e name (b.number req) ae refl (sym (i.runs_are req) ∙ found_name))
  Change-Moves a w (not_launched run_cr ae has_not next) =
      (_, begins run_cr false ae has_not refl, rw next (begun-Implements b.pods v.pods i.pods_are))
  Change-Moves a w (launched run_cr pod ae has_not launches next) = (
    _,
    begins run_cr true ae has_not refl,
    rw next (begun-Implements _ _ (one_more pod launches.named.0)),
  )

module _ (C : Cluster) (fraction : ℕ → ℕ → ℕ → ℕ) where
  open C use {World}

  -- Over fewer than 2^63 requests, whatever calls fail and however the cluster changes in between, the
  -- reconciler implements a ledger that is kept by one move for each request. If the resource is read
  -- and names its pod, nothing changes. If it names none, the run takes the next number, and its pod
  -- is sent or not; if the run has a number already, that one's pod stays. If the resource is not
  -- read, a run that has a number is forgotten and that number's pod removed, and nothing changes for
  -- any other. The registry is the ledger's function from runs to numbers, the counter its count, and
  -- the pods that were sent to be created and deleted bear the names of the ledger's numbers, in its
  -- order.
  pub Reach-Kept :
      {n : ℕ} {s : State World} (reach : Reach C fraction n s)
      → n < 2 ^ 63
      → (b : Ledger) × Kept reach b × Implements n b (view s)
  unfolding view created deleted lookup setup_with_manager
  Reach-Kept (start image w) small = (
    opened,
    refl,
    record {
      bounded = omega arith;
      id_is = refl;
      runs_are = λ k. refl;
      pods_are = refl;
      names_are = refl;
    },
  )
  Reach-Kept (request {n = n} {s = s} req before) small =
      let (b, kept, i) = Reach-Kept before (omega (arith, small)) in
      let (b', moved, i') =
        Change-Moves n b (view s) i req small _ _ (reconcile-Change C fraction req s) in
      (b', (b, kept, moved), i')
  Reach-Kept (elsewhere w before) small = Reach-Kept before small
