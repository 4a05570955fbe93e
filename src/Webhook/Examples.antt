-- ===== src/Webhook/Examples.antt =====
-- A run with a config map and a secret, and a cluster with one plugin.
use cnf_certsuite_operator.Prelude.{List, ◌≤◌, ◌≡◌, ◌↔◌, refl, none, [], ◌∷◌, length}
use cnf_certsuite_operator.Go.{ok}
use cnf_certsuite_operator.Api.{CertsuiteConsolePlugin}
use cnf_certsuite_operator.Pod.{Pod}
use cnf_certsuite_operator.Job.{new}
use cnf_certsuite_operator.Controller.RunPod.{job_options}
use cnf_certsuite_operator.Controller.Cluster.{found}
use cnf_certsuite_operator.Controller.RunPod.Examples.{sample_run}
use cnf_certsuite_operator.Webhook.{WebhookClient, to_lower, validate_create}
use cnf_certsuite_operator.Webhook.Accepted.{
  HasConfig, HasSecret, IsOneOf, log_levels, validate_create-HasConfig,
}
use cnf_certsuite_operator.Webhook.Configured.{Config, ServesSecret, validate_create-Serves}
use cnf_certsuite_operator.Webhook.Overlap.{Traffic, Traffic-limit}

abbrev webhook_client : WebhookClient
webhook_client = record {
  get_config_map = λ n. found (("tnf_config.yaml", "targetNameSpaces:") ∷ []);
  get_secret = λ n. found (("preflight_dockerconfig.json", 123 ∷ 125 ∷ []) ∷ []);
  list_plugins = found [];
  lower = λ c. c;
  quote = λ l. "";
}

validate_create-HasConfig_example : (validate_create webhook_client sample_run ≡ none) ↔ (
    HasConfig webhook_client sample_run
    × HasSecret webhook_client sample_run
    × IsOneOf (to_lower webhook_client sample_run.spec.log_level) log_levels)
validate_create-HasConfig_example = validate_create-HasConfig webhook_client sample_run

sample_run_admitted : validate_create webhook_client sample_run ≡ none
unfolding validate_create
sample_run_admitted = refl

validate_create-Serves_example :
    (p : Pod) × (new (job_options "image" "pod" sample_run.namespace sample_run) ≡ ok p)
    × (p.namespace ≡ sample_run.namespace)
    × Config sample_run p
    × HasConfig webhook_client sample_run
    × ServesSecret webhook_client sample_run p
validate_create-Serves_example =
    validate_create-Serves webhook_client sample_run "image" "pod" sample_run_admitted

abbrev one_plugin : CertsuiteConsolePlugin
one_plugin = record { name = "plugin"; namespace = "operators"; conditions = [] }

-- With two requests open at the same time, two resources can be stored.
Traffic-limit_example :
    ((ps : List CertsuiteConsolePlugin) × Traffic webhook_client 2 ps [] × (length ps ≡ 2))
    ↔ (2 ≤ 2)
Traffic-limit_example = Traffic-limit {C = webhook_client} {k = 2} one_plugin 2
