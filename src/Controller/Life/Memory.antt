-- ===== src/Controller/Life/Memory.antt =====
-- A cluster in memory that stores runs and pods by their names: the interface of the life of a run can be
-- filled.
use cnf_certsuite_operator.Prelude.{
  String, ◌≡◌, ◌≢◌, refl, sym, ◌∙◌, inl, inr, Bool, true, false, Option, none, some, Bool-cases,
  Option-cases,
}
use cnf_certsuite_operator.Prelude.Dict.{Dict, lookup, insert, erase, lookup-insert}
use cnf_certsuite_operator.Go.{Error, api, not_found, already_exists, invalid}
use cnf_certsuite_operator.Pod.{Pod}
use cnf_certsuite_operator.Api.{NamespacedName, CertsuiteRun, allowed_phases}
use cnf_certsuite_operator.Controller.Cluster.{Cluster, Answer, found, failure}
use cnf_certsuite_operator.Controller.Memory.{retry, retry-Attempts}
use cnf_certsuite_operator.Controller.State.{NamespacedName_eq, name_eq, name_eq_iff}
use cnf_certsuite_operator.Controller.EndOfRun.Refused.{is_one_of}
use cnf_certsuite_operator.Controller.Life.{Store, name_of, pod_key}

pub record Objects : Type 0 where
  pub runs : Dict NamespacedName CertsuiteRun
  pub pods : Dict NamespacedName Pod

abbrev pub answer_of : {A : Type 0} → Option A → Answer A
answer_of none = failure (api not_found "not found")
answer_of (some a) = found a

-- The phase is in the enumeration, and the resource is there.
abbrev pub accept : CertsuiteRun → Bool → Option CertsuiteRun → Objects → Option Error × Objects
accept r false o w = (some (api invalid "phase"), w)
accept r true none w = (some (api not_found "not found"), w)
accept r true (some old) w =
    (none, record w { runs = insert (name_of r) (record old { status = r.status }) w.runs })

abbrev pub admit : Pod → Option Pod → Objects → Option Error × Objects
admit p (some other) w = (some (api already_exists "already exists"), w)
admit p none w = (none, record w { pods = insert (pod_key p) p w.pods })

abbrev pub objects : Cluster
objects = record {
  World = Objects;
  get_run = λ n w. (answer_of (lookup n w.runs), w);
  get_pod = λ n w. (answer_of (lookup n w.pods), w);
  update_run_status =
      λ r w. accept r (is_one_of r.status.phase allowed_phases) (lookup (name_of r) w.runs) w;
  create_pod = λ p w. admit p (lookup (pod_key p) w.pods) w;
  delete_pod = λ n w. (none, record w { pods = erase n w.pods });
  now = λ w. 0;
  retry_on_conflict = retry 4;
  retry_attempts = retry-Attempts 4;
}

same_name : (n : NamespacedName) → name_eq n n ≡ true
same_name n = (name_eq_iff n n).1 refl

abbrev run_of : NamespacedName → Objects → Option CertsuiteRun
run_of n w = lookup n w.runs

abbrev pod_of : NamespacedName → Objects → Option Pod
pod_of n w = lookup n w.pods

pub accept-stored :
    (r old : CertsuiteRun) (w : Objects)
    → run_of (name_of r) w ≡ some old
    → is_one_of r.status.phase allowed_phases ≡ true
    → ((objects.update_run_status r w).0 ≡ none)
      × (run_of (name_of r) (objects.update_run_status r w).1
          ≡ some (record old { status = r.status }))
      × ((m : NamespacedName) → pod_of m (objects.update_run_status r w).1 ≡ pod_of m w)
accept-stored r old w there allowed = rw allowed (
    rw there (
      refl,
      lookup-insert (name_of r) (name_of r) (record old { status = r.status }) w.runs
          ∙ (rw (same_name (name_of r)) refl),
      λ m. refl,
    ))

pub accept-others :
    (r : CertsuiteRun) (w : Objects) (m : NamespacedName)
    → m ≢ name_of r
    → run_of m (objects.update_run_status r w).1 ≡ run_of m w
accept-others r w m differ = elim (Bool-cases (is_one_of r.status.phase allowed_phases)) [
  | inr outside ↦ rw outside refl
  | inl allowed ↦ elim (Option-cases (lookup (name_of r) w.runs)) [
    | inl missing ↦ rw (allowed, missing) refl
    | inr (old, there) ↦ elim (Bool-cases (name_eq (name_of r) m)) [
      | inl same ↦ absurd (differ (sym ((name_eq_iff (name_of r) m).0 same)))
      | inr other ↦
          let inserted = lookup-insert (name_of r) m (record old { status = r.status }) w.runs in
          rw (allowed, there) (rw other at inserted)
    ]
  ]
]

pub admit-stored :
    (p : Pod) (w : Objects)
    → pod_of (pod_key p) w ≡ none
    → ((objects.create_pod p w).0 ≡ none)
      × (pod_of (pod_key p) (objects.create_pod p w).1 ≡ some p)
      × ((m : NamespacedName) → run_of m (objects.create_pod p w).1 ≡ run_of m w)
admit-stored p w free = rw free (
  refl,
  lookup-insert (pod_key p) (pod_key p) p w.pods ∙ (rw (same_name (pod_key p)) refl),
  λ m. refl,
)

pub accept-refused :
    (r : CertsuiteRun) (w : Objects)
    → is_one_of r.status.phase allowed_phases ≡ false
    → (text : String) × (objects.update_run_status r w ≡ (some (api invalid text), w))
accept-refused r w outside = rw outside ("phase", refl)

pub admit-taken :
    (p other : Pod) (w : Objects)
    → pod_of (pod_key p) w ≡ some other
    → (text : String) × (objects.create_pod p w ≡ (some (api already_exists text), w))
admit-taken p other w taken = rw taken ("already exists", refl)

pub get_run-answer :
    (n : NamespacedName) (w : Objects) (r : CertsuiteRun)
    → run_of n w ≡ some r
    → objects.get_run n w ≡ (found r, w)
get_run-answer n w r there = rw there refl

pub get_run-none :
    (n : NamespacedName) (w : Objects)
    → run_of n w ≡ none
    → (e : Error) × (objects.get_run n w ≡ (failure e, w))
get_run-none n w missing = rw missing (api not_found "not found", refl)

pub get_pod-answer :
    (n : NamespacedName) (w : Objects) (p : Pod)
    → pod_of n w ≡ some p
    → objects.get_pod n w ≡ (found p, w)
get_pod-answer n w p there = rw there refl

abbrev pub object_store : Store objects
object_store = record {
  run_of = run_of;
  pod_of = pod_of;
  get_run-stored = get_run-answer;
  get_pod-stored = get_pod-answer;
  get_run-missing = get_run-none;
  get_pod-same = λ n w. refl;
  delete-runs = λ n m w. refl;
  update-stored = accept-stored;
  update-others = accept-others;
  update-refused = accept-refused;
  create-taken = admit-taken;
  create-stored = admit-stored;
}
