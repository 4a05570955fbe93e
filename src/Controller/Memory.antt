-- ===== src/Controller/Memory.antt =====
-- A cluster in memory, for running internal/controller/certsuiterun_controller.go on examples: the
-- answers to its calls are given, and an update of a status is kept.
use cnf_certsuite_operator.Prelude.{
  ℕ, zero, suc, String, ◌≡◌, refl, inl, inr, Bool, true, false, Option, none, some, List, [], ◌∷◌,
  Bool-cases,
}
use cnf_certsuite_operator.Go.{
  Error, api, errorf, not_found, already_exists, conflict, invalid, other_reason,
}
use cnf_certsuite_operator.Pod.{Pod}
use cnf_certsuite_operator.Api.{CertsuiteRun}
use cnf_certsuite_operator.Controller.Cluster.{Cluster, Answer, Attempts, last, again, found}

abbrev pub is_conflict : Option Error → Bool
is_conflict (some (api conflict text)) = true
is_conflict _ = false

is_conflict_text :
    (e : Option Error) → is_conflict e ≡ true → (text : String) × (e ≡ some (api conflict text))
is_conflict_text none h = cc
is_conflict_text (some (api not_found text)) h = cc
is_conflict_text (some (api already_exists text)) h = cc
is_conflict_text (some (api conflict text)) h = (text, refl)
is_conflict_text (some (api invalid text)) h = cc
is_conflict_text (some (api other_reason text)) h = cc
is_conflict_text (some (errorf text)) h = cc

-- At most `n` runs more after the first.
abbrev pub retry : ℕ → (S : Type 0) → (S → Option Error × S) → S → Option Error × S
retry zero S fn s = fn s
retry (suc n) S fn s = elim (is_conflict (fn s).0) [ true ↦ retry n S fn (fn s).1 | false ↦ fn s ]

pub retry-Attempts :
    (n : ℕ) (S : Type 0) (fn : S → Option Error × S) (s : S) → Attempts fn s (retry n S fn s)
retry-Attempts zero S fn s = last
retry-Attempts (suc n) S fn s = elim (Bool-cases (is_conflict (fn s).0)) [
  | inl more ↦
      let (text, e) = is_conflict_text (fn s).0 more in
      rw (more, retry) (again text e (retry-Attempts n S fn (fn s).1))
  | inr enough ↦ rw (enough, retry) last
]

-- The updates' errors, in the order of the calls; without an error the status is kept.
pub record Memory : Type 0 where
  pub run : Answer CertsuiteRun
  pub pod : Answer Pod
  pub update_errors : List (Option Error)
  pub create_error : Option Error
  pub delete_error : Option Error
  pub time : ℕ

abbrev pub keep : CertsuiteRun → List (Option Error) → Memory → Option Error × Memory
keep r [] w = (none, record w { run = found r })
keep r (none ∷ es) w = (none, record w { run = found r; update_errors = es })
keep r (some e ∷ es) w = (some e, record w { update_errors = es })

abbrev pub memory : Cluster
memory = record {
  World = Memory;
  get_run = λ n w. (w.run, w);
  get_pod = λ n w. (w.pod, w);
  update_run_status = λ r w. keep r w.update_errors w;
  create_pod = λ p w. (w.create_error, w);
  delete_pod = λ n w. (w.delete_error, w);
  now = λ w. w.time;
  retry_on_conflict = retry 4;
  retry_attempts = retry-Attempts 4;
}
