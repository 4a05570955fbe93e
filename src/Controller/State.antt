-- ===== src/Controller/State.antt =====
-- The state of the reconciler of internal/controller/certsuiterun_controller.go: its package
-- variables, and the cluster. A method is a function of the state that returns, fails or panics,
-- and leaves a state behind in each case.
use cnf_certsuite_operator.Prelude.{
  none, some, ℕ, ◌+◌, ◌-◌, ◌%◌, ◌^◌, String, ◌<>◌, Bool, ◌&&◌, ◌≡◌, ◌↔◌, true, Option, List, [],
  ◌∷◌, ◌++◌, str_eq, eq_iff, ltb, arith, if◌then◌else◌,
}
use cnf_certsuite_operator.Prelude.Eq.{Eq}
use cnf_certsuite_operator.Prelude.Decimal.{decimal}
use cnf_certsuite_operator.Prelude.Dict.{Dict}
use cnf_certsuite_operator.Go.{Error, ok, err, errorf}
unfoldable pub use cnf_certsuite_operator.Action.{Action, return, fail, lift, continue, ◌>>=◌, ◌>>◌}
use cnf_certsuite_operator.Pod.{Pod}
use cnf_certsuite_operator.Api.{NamespacedName, CertsuiteRun}
use cnf_certsuite_operator.Controller.Cluster.{Cluster, Answer, Call}

abbrev pub name_eq : NamespacedName → NamespacedName → Bool
name_eq a b = str_eq a.namespace b.namespace && str_eq a.name b.name

pub name_eq_iff : (a b : NamespacedName) → (name_eq a b ≡ true) ↔ (a ≡ b)
name_eq_iff a b = ground (arith, eq_iff a.namespace b.namespace, eq_iff a.name b.name)

instance abbrev pub NamespacedName_eq : Eq NamespacedName
NamespacedName_eq = record { beq = name_eq; beq_iff = name_eq_iff }

-- `cert_suite_pod_id` is the 64 bits of a Go `int`.
pub record State (W : Type 0) : Type 0 where
  pub certification_runs : Dict NamespacedName String
  pub cert_suite_pod_id : ℕ
  pub side_car_image : String
  pub calls : List Call
  pub world : W

abbrev pub M : Type 0 → Type 0 → Type 0
M W A = Action (State W) A

-- The package variables when the process starts.
abbrev pub initial_state : {W : Type 0} → W → State W
initial_state w = record {
  certification_runs = [];
  cert_suite_pod_id = 0;
  side_car_image = "";
  calls = [];
  world = w;
}

-- The sidecar's image is read from the environment; the error is that of the manager's builder.
unfoldable pub setup_with_manager : {W : Type 0} → Option String → Option Error → M W (Unit {0})
setup_with_manager none complete s = (
  err (errorf "sidecar app img env var \"SIDECAR_APP_IMG\" not found"),
  record s { side_car_image = "" },
)
setup_with_manager (some image) (some e) s = (err e, record s { side_car_image = image })
setup_with_manager (some image) none s = (ok tt, record s { side_car_image = image })

-- The next value of an `int` counter, and its decimal form in `%d`.
abbrev pub next_int : ℕ → ℕ
next_int n = (n + 1) % 2 ^ 64

unfoldable pub format_int : ℕ → String
format_int n = if ltb n (2 ^ 63) then decimal n else "-" <> decimal (2 ^ 64 - n)

module _ (C : Cluster) where
  open C use {World}

  -- The client's calls. Each is recorded.
  unfoldable pub get_run : NamespacedName → M World (Answer CertsuiteRun)
  get_run n s =
      let (a, w) = C.get_run n s.world in
      (ok a, record s { calls = s.calls ++ Call.get_run n ∷ []; world = w })

  unfoldable pub get_pod : NamespacedName → M World (Answer Pod)
  get_pod n s =
      let (a, w) = C.get_pod n s.world in
      (ok a, record s { calls = s.calls ++ Call.get_pod n ∷ []; world = w })

  unfoldable pub update_run_status : CertsuiteRun → M World (Option Error)
  update_run_status run s =
      let (e, w) = C.update_run_status run s.world in
      (ok e, record s { calls = s.calls ++ Call.update_run_status run ∷ []; world = w })

  unfoldable pub create_pod : Pod → M World (Option Error)
  create_pod p s =
      let (e, w) = C.create_pod p s.world in
      (ok e, record s { calls = s.calls ++ Call.create_pod p ∷ []; world = w })

  unfoldable pub delete_pod : NamespacedName → M World (Option Error)
  delete_pod n s =
      let (e, w) = C.delete_pod n s.world in
      (ok e, record s { calls = s.calls ++ Call.delete_pod n ∷ []; world = w })

  unfoldable pub now : M World ℕ
  now s = (ok (C.now s.world), s)
