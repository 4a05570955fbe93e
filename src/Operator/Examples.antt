-- ===== src/Operator/Examples.antt =====
-- A process with the sidecar's image, HTTP/2 off and webhooks on, and one without the image.
use cnf_certsuite_operator.Prelude.{
  ℕ, ◌+◌, String, ◌≡◌, ◌≢◌, refl, false, Option, none, some, [], ◌∷◌, ◌++◌, str_eq, if◌then◌else◌,
}
use cnf_certsuite_operator.Go.{ok}
use cnf_certsuite_operator.Action.{◌>>=◌}
use cnf_certsuite_operator.Controller.State.{initial_state}
use cnf_certsuite_operator.Operator.Options.{TlsConfig, default_flags, manager_options}
use cnf_certsuite_operator.Operator.{Host, Process, webhooks_enabled, run, exit_status}
use cnf_certsuite_operator.Operator.Calls.{Follows}
use cnf_certsuite_operator.Operator.Order.{setup_plan, first_calls, run-missing_image}
use cnf_certsuite_operator.Operator.Ready.{run-Ready}
use cnf_certsuite_operator.Operator.Servers.{configured, manager_options-protocols}

abbrev environment : String → Option String
environment name =
    if str_eq name "SIDECAR_APP_IMG"
    then some "quay.io/sidecar:1"
    else if str_eq name "WATCH_NAMESPACE"
    then some "certsuite-operator"
    else none

abbrev plain : String → Option String
plain name = none

-- The world counts the calls.
abbrev host : Host
host = record { World = ℕ; lookup_env = environment; attempt = λ c w. (none, w + 1) }

abbrev bare_host : Host
bare_host = record { World = ℕ; lookup_env = plain; attempt = λ c w. (none, w + 1) }

abbrev fresh : Process host
fresh = record { controller = initial_state 0; has_client = false; setup = [] }

abbrev bare : Process bare_host
bare = record { controller = initial_state 0; has_client = false; setup = [] }

abbrev offered : TlsConfig
offered = record { next_protos = "h2" ∷ "http/1.1" ∷ [] }

run-missing_image_example :
    ((run bare_host default_flags bare).0 ≢ ok tt)
    × Follows []
        (first_calls (manager_options plain default_flags))
        (run bare_host default_flags bare).1.setup
        (run bare_host default_flags bare).0
run-missing_image_example = run-missing_image bare_host default_flags bare refl

run-Ready_example :
    ((run host default_flags fresh).0 ≡ ok tt)
    × ((run host default_flags fresh).1.setup
        ≡ [] ++ setup_plan (webhooks_enabled host) (manager_options environment default_flags))
    × ((run host default_flags fresh).1.controller.side_car_image ≡ "quay.io/sidecar:1")
    × ((run host default_flags fresh).1.has_client ≡ webhooks_enabled host)
run-Ready_example = run-Ready host default_flags "quay.io/sidecar:1" fresh (λ c w. refl) refl refl

manager_options-protocols_example :
    let o = manager_options environment default_flags in
    ((configured o.metrics.tls_opts offered).next_protos ≡ "http/1.1" ∷ [])
    × ((configured o.webhook_tls_opts offered).next_protos ≡ "http/1.1" ∷ [])
    × (o.metrics.secure_serving ≡ false)
    × (o.metrics.authenticated ≡ false)
    × (o.default_namespaces ≡ "certsuite-operator" ∷ [])
manager_options-protocols_example = manager_options-protocols environment default_flags offered

-- The exit statuses of the two.
ready_exit : exit_status host (run host default_flags fresh).0 ≡ 0
unfolding run webhooks_enabled ◌>>=◌
ready_exit = refl

bare_exit : exit_status bare_host (run bare_host default_flags bare).0 ≡ 1
unfolding run ◌>>=◌
bare_exit = refl
