-- ===== src/Operator.antt =====
-- cmd/main.go: the process of the operator, which sets up the manager of controller-runtime and starts
-- it. The calls of that library are a parameter; the flags are given as they have been parsed.
pub mod Options
pub mod Calls
pub mod Order
pub mod Ready
pub mod Servers
mod Examples
use cnf_certsuite_operator.Prelude.{
  ℕ, String, Bool, true, false, not, Option, none, some, List, [], ◌∷◌, ◌++◌, str_eq, if◌then◌else◌,
}
use cnf_certsuite_operator.Go.{Error, Result, ok, err, panic, explicit}
use cnf_certsuite_operator.Action.{Action, ◌>>=◌, ◌>>◌, return}
use cnf_certsuite_operator.Definitions.{side_car_image_env_var}
use cnf_certsuite_operator.Controller.State.{State, setup_with_manager}
use cnf_certsuite_operator.Controller.Events.{
  Predicate, ignore_update_in_certsuite_run, ignore_update_in_certsuite_console_plugin,
}
use cnf_certsuite_operator.Operator.Options.{Flags, ManagerOptions, manager_options}

-- The calls that set the process up, in the order of the program.
pub data Setup : Type 0 where
  add_to_scheme : String → Setup
  get_config : Setup
  new_manager : ManagerOptions → Setup
  -- The controller, with its event filter.
  build_controller : String → Predicate → Setup
  build_webhook : String → Setup
  add_healthz_check add_readyz_check : String → Setup
  start : Setup

pub record Host : Type 1 where
  pub World : Type 0
  pub lookup_env : String → Option String
  -- A call's error, if any.
  pub attempt : Setup → World → Option Error × World

module _ (H : Host) where
  open H use {World}

  -- The package variables of the reconciler, the client of the webhooks' package, and the calls made.
  pub record Process : Type 0 where
    pub controller : State World
    pub has_client : Bool
    pub setup : List Setup

  abbrev pub P : Type 0 → Type 0
  P A = Action Process A

  abbrev pub or_err : Option Error → Result (Unit {0})
  or_err none = ok tt
  or_err (some e) = err e

  -- utilruntime.Must
  abbrev pub or_panic : Option Error → Result (Unit {0})
  or_panic none = ok tt
  or_panic (some e) = panic explicit

  -- A call, in the state that it leaves.
  abbrev pub called : Setup → Process → Process
  called c s = record s {
    controller = record s.controller { world = (H.attempt c s.controller.world).1 };
    setup = s.setup ++ c ∷ [];
  }

  -- `if err := …; err != nil { os.Exit(1) }`: an error ends the process.
  unfoldable pub perform : Setup → P (Unit {0})
  perform c s = (or_err (H.attempt c s.controller.world).0, called c s)

  unfoldable pub must : Setup → P (Unit {0})
  must c s = (or_panic (H.attempt c s.controller.world).0, called c s)

  unfoldable pub init : P (Unit {0})
  unfolding must
  init = do
    must (add_to_scheme "client-go")
    must (add_to_scheme "v1alpha1")
    must (add_to_scheme "console")

  -- SetupWithManager of the run reconciler, by the image in the environment.
  unfoldable pub setup_run_controller : Option String → P (Unit {0})
  unfolding setup_with_manager
  setup_run_controller none s =
      let (r, t) = setup_with_manager none none s.controller in (r, record s { controller = t })
  setup_run_controller (some image) s =
      let (e, w) =
        H.attempt (build_controller "CertsuiteRun" ignore_update_in_certsuite_run)
          s.controller.world in
      let (r, t) = setup_with_manager (some image) e (record s.controller { world = w }) in
      (
        r,
        record s {
          controller = t;
          setup = s.setup ++ build_controller "CertsuiteRun" ignore_update_in_certsuite_run ∷ [];
        },
      )

  -- SetupWithManager of the reconciler of console plugins.
  unfoldable pub setup_plugin_controller : P (Unit {0})
  unfolding perform
  setup_plugin_controller =
      perform (build_controller "CertsuiteConsolePlugin" ignore_update_in_certsuite_console_plugin)

  -- SetupWebhookWithManager of either resource.
  unfoldable pub setup_webhook_with_manager : String → P (Unit {0})
  unfolding perform
  setup_webhook_with_manager kind s = perform (build_webhook kind) (record s { has_client = true })

  -- os.Getenv
  abbrev pub text_or_empty : Option String → String
  text_or_empty none = ""
  text_or_empty (some value) = value

  abbrev pub enable_webhooks_false : String
  enable_webhooks_false = "false"

  unfoldable pub webhooks_enabled : Bool
  webhooks_enabled =
      not (str_eq (text_or_empty (H.lookup_env "ENABLE_WEBHOOKS")) enable_webhooks_false)

  unfoldable pub setup_webhook : String → P (Unit {0})
  unfolding webhooks_enabled setup_webhook_with_manager
  setup_webhook kind = if webhooks_enabled then setup_webhook_with_manager kind else return tt

  unfoldable pub main : Flags → P (Unit {0})
  unfolding perform setup_run_controller setup_plugin_controller setup_webhook manager_options
  main flags = do
    perform get_config
    perform (new_manager (manager_options H.lookup_env flags))
    setup_run_controller (H.lookup_env side_car_image_env_var)
    setup_webhook "CertsuiteRun"
    setup_plugin_controller
    setup_webhook "CertsuiteConsolePlugin"
    perform (add_healthz_check "healthz")
    perform (add_readyz_check "readyz")
    perform start

  -- The package's `init`, and then `main`.
  unfoldable pub run : Flags → P (Unit {0})
  unfolding init main
  run flags = do init; main flags

  -- The process's exit status.
  abbrev pub exit_status : Result (Unit {0}) → ℕ
  exit_status (ok a) = 0
  exit_status (err e) = 1
  exit_status (panic p) = 2
