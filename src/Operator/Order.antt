-- ===== src/Operator/Order.antt =====
-- The order in which cmd/main.go sets the process up, and where it stops.
use cnf_certsuite_operator.Prelude.{
  String, ◌≡◌, ◌≢◌, Bool, none, List, [], ◌∷◌, ◌++◌, if◌then◌else◌,
}
use cnf_certsuite_operator.Go.{ok}
use cnf_certsuite_operator.Definitions.{side_car_image_env_var}
use cnf_certsuite_operator.Controller.Events.{
  ignore_update_in_certsuite_run, ignore_update_in_certsuite_console_plugin,
}
use cnf_certsuite_operator.Operator.Options.{Flags, ManagerOptions, manager_options}
use cnf_certsuite_operator.Operator.{
  Setup, add_to_scheme, get_config, new_manager, build_controller, build_webhook, add_healthz_check,
  add_readyz_check, start, Host, Process, init, webhooks_enabled, main, run,
}
use cnf_certsuite_operator.Operator.Calls.{
  Follows, Runs, Runs-perform, Runs-must, Runs-bind, Runs-setup_webhook, Runs-setup_run_controller,
  Runs-missing, Never-bind_first, Never-bind_rest, Never-missing,
}

-- The calls in the program's order.
abbrev pub webhook_if : Bool → String → List Setup
webhook_if enabled kind = if enabled then build_webhook kind ∷ [] else []

abbrev pub setup_plan : Bool → ManagerOptions → List Setup
setup_plan webhooks options =
    add_to_scheme "client-go"
    ∷ add_to_scheme "v1alpha1"
    ∷ add_to_scheme "console"
    ∷ get_config
    ∷ new_manager options
    ∷ build_controller "CertsuiteRun" ignore_update_in_certsuite_run
    ∷ (webhook_if webhooks "CertsuiteRun"
        ++ build_controller "CertsuiteConsolePlugin" ignore_update_in_certsuite_console_plugin
          ∷ (webhook_if webhooks "CertsuiteConsolePlugin"
              ++ add_healthz_check "healthz" ∷ add_readyz_check "readyz" ∷ start ∷ []))

module _ {H : Host} where
  init-Runs :
      Runs
        (add_to_scheme "client-go" ∷ add_to_scheme "v1alpha1" ∷ add_to_scheme "console" ∷ [])
        (init H)
  unfolding init
  init-Runs = Runs-bind (Runs-must _) (Runs-bind (Runs-must _) (Runs-must _))

  main-Runs :
      (flags : Flags)
      → Runs
          (get_config
            ∷ new_manager (manager_options H.lookup_env flags)
            ∷ build_controller "CertsuiteRun" ignore_update_in_certsuite_run
            ∷ (webhook_if (webhooks_enabled H) "CertsuiteRun"
                ++ build_controller "CertsuiteConsolePlugin"
                    ignore_update_in_certsuite_console_plugin
                  ∷ (webhook_if (webhooks_enabled H) "CertsuiteConsolePlugin"
                      ++ add_healthz_check "healthz" ∷ add_readyz_check "readyz" ∷ start ∷ [])))
          (main H flags)
  unfolding main
  main-Runs flags = Runs-bind (Runs-perform _) (
      Runs-bind (Runs-perform _) (
        Runs-bind (Runs-setup_run_controller _) (
          Runs-bind (Runs-setup_webhook _) (
            Runs-bind (Runs-perform _) (
              Runs-bind (Runs-setup_webhook _)
                (Runs-bind (Runs-perform _) (Runs-bind (Runs-perform _) (Runs-perform _))))))))

pub run-Follows :
    (H : Host) (flags : Flags) (s : Process H)
    → Follows s.setup
        (setup_plan (webhooks_enabled H) (manager_options H.lookup_env flags))
        (run H flags s).1.setup
        (run H flags s).0
unfolding run
run-Follows H flags = (Runs-bind init-Runs (main-Runs flags)).at

abbrev pub first_calls : ManagerOptions → List Setup
first_calls options =
    add_to_scheme "client-go"
    ∷ add_to_scheme "v1alpha1"
    ∷ add_to_scheme "console"
    ∷ get_config
    ∷ new_manager options
    ∷ []

-- Without the image of the sidecar in the environment the process never returns normally, and it
-- makes no call beyond the first five: no controller is built and the manager is not started.
pub run-missing_image :
    (H : Host) (flags : Flags) (s : Process H)
    → H.lookup_env side_car_image_env_var ≡ none
    → ((run H flags s).0 ≢ ok tt)
      × Follows s.setup
          (first_calls (manager_options H.lookup_env flags))
          (run H flags s).1.setup
          (run H flags s).0
unfolding run main
run-missing_image H flags s unset = rw unset (
  (Never-bind_rest (init H) _
        (Never-bind_rest _ _ (Never-bind_rest _ _ (Never-bind_first _ _ Never-missing)))).at
      s,
  (Runs-bind init-Runs
        (Runs-bind (Runs-perform _) (Runs-bind (Runs-perform _) (Runs-missing _)))).at
      s,
)
