-- ===== src/Webhook/Configured.antt =====
-- What the webhook of api/v1alpha1/certsuiterun_webhook.go checks is what the pod that
-- internal/controller/certsuiterun_controller.go starts gives to the suite.
use mathlib.Core.Path.{subst}
use cnf_certsuite_operator.Prelude.{
  ℕ, String, ◌<>◌, ◌≡◌, ◌⊎◌, inl, inr, refl, Option, none, some, List, [], ◌∷◌, str_eq,
  if◌then◌else◌,
}
use cnf_certsuite_operator.Prelude.Eq.{string_eq}
use cnf_certsuite_operator.Prelude.Dict.{Dict, lookup}
use cnf_certsuite_operator.Go.{ok}
use cnf_certsuite_operator.Pod.{
  Pod, Container, VolumeMount, Volume, VolumeSource, config_map, secret,
}
use cnf_certsuite_operator.Api.{CertsuiteRun}
use cnf_certsuite_operator.Job.{new}
use cnf_certsuite_operator.Job.Options.{
  with_pod_name, with_namespace, with_cert_suite_config_run_name, with_labels_filter,
  with_log_level, with_time_out, with_config_map, with_preflight_secret, with_side_car_app,
  with_enable_data_collection, with_owner_reference,
}
use cnf_certsuite_operator.Controller.Cluster.{found}
use cnf_certsuite_operator.Controller.RunPod.{job_options}
use cnf_certsuite_operator.Controller.RunPod.Launch.{suite_container, suite_flags}
use cnf_certsuite_operator.Webhook.{WebhookClient, validate_create}
use cnf_certsuite_operator.Webhook.Accepted.{HasConfig, HasSecret, validate_create-HasConfig}

-- The source of a volume.
abbrev pub source_of : String → List Volume → Option VolumeSource
source_of name [] = none
source_of name (v ∷ vs) = if str_eq v.name name then some v.source else source_of name vs

-- The volume whose file `key` is at the path.
abbrev pub served_at : String → String → List Volume → List VolumeMount → Option VolumeSource
served_at path key vs [] = none
served_at path key vs (m ∷ ms) =
    if str_eq (m.mount_path <> ("/" <> key)) path
    then source_of m.name vs
    else served_at path key vs ms

-- The path that the suite is given by a flag is that of the file `key` of the source.
pub record Serves (flag key : String) (source : VolumeSource) (p : Pod) : Type 0 where
  pub suite : Container
  pub flags : Dict String String
  pub path : String
  pub suite_is : suite_container p ≡ some suite
  pub flags_are : suite_flags p ≡ some flags
  pub told : lookup flag flags ≡ some path
  pub served : served_at path key p.volumes suite.volume_mounts ≡ some source

module _ (r : CertsuiteRun) where
  abbrev with_name : Option String → CertsuiteRun
  with_name s = record r { spec = record r.spec { preflight_secret_name = s } }

  abbrev pub Config : Pod → Type 0
  Config = Serves "--config-file" "tnf_config.yaml" (config_map r.spec.config_map_name)

  abbrev Secret : String → Pod → Type 0
  Secret name = Serves "--preflight-dockerconfig" "preflight_dockerconfig.json" (secret name)

  abbrev Secrets : Option String → Pod → Type 0
  Secrets none p = Unit
  Secrets (some name) p = Secret name p

  built :
      (image pod_name : String) (s : Option String)
      → (p : Pod) × (new (job_options image pod_name r.namespace (with_name s)) ≡ ok p)
        × (p.namespace ≡ r.namespace)
        × Config p
        × Secrets s p
  unfolding new job_options with_pod_name with_namespace with_cert_suite_config_run_name
      with_labels_filter with_log_level with_time_out with_config_map with_preflight_secret
      with_side_car_app with_enable_data_collection with_owner_reference suite_flags lookup
  built image pod_name none = (
    _,
    refl,
    refl,
    record {
      suite = _;
      flags = _;
      path = _;
      suite_is = refl;
      flags_are = refl;
      told = refl;
      served = refl;
    },
    tt,
  )
  built image pod_name (some name) = (
    _,
    refl,
    refl,
    record {
      suite = _;
      flags = _;
      path = _;
      suite_is = refl;
      flags_are = refl;
      told = refl;
      served = refl;
    },
    record {
      suite = _;
      flags = _;
      path = _;
      suite_is = refl;
      flags_are = refl;
      told = refl;
      served = refl;
    },
  )

module _ (C : WebhookClient) (r : CertsuiteRun) where
  -- No secret is named, or the suite is told of a file that holds a docker configuration.
  abbrev pub ServesSecret : Pod → Type 0
  ServesSecret p =
      (r.spec.preflight_secret_name ≡ none)
      ⊎ ((name : String) × (values : Dict String (List ℕ)) × (x : ℕ) × (value : List ℕ) × Secret r
            name p
          × (C.get_secret (record { namespace = r.namespace; name = name }) ≡ found values)
          × (lookup "preflight_dockerconfig.json" values ≡ some (x ∷ value)))

  Secret-HasSecret :
      {p : Pod} → Secrets r r.spec.preflight_secret_name p → HasSecret C r → ServesSecret p
  Secret-HasSecret {p} s (inl absent) = inl absent
  Secret-HasSecret {p} s (inr (name, values, x, value, named, got, holds)) =
      inr (name, values, x, value, subst (λ o. Secrets r o p) named s, got, holds)

  -- Whatever the image and the name of the pod, the pod that the reconciler builds for a run
  -- that the webhook admits is built, and is in the run's namespace. The path that its command line
  -- gives the suite for its configuration is that of the file `tnf_config.yaml` of the config map
  -- the run names, which holds a text that is not empty; and the run names no secret, or the path of
  -- the docker configuration is that of the file `preflight_dockerconfig.json` of a secret which
  -- holds some bytes.
  pub validate_create-Serves :
      (image pod_name : String)
      → validate_create C r ≡ none
      → (p : Pod) × (new (job_options image pod_name r.namespace r) ≡ ok p)
        × (p.namespace ≡ r.namespace)
        × Config r p
        × HasConfig C r
        × ServesSecret p
  validate_create-Serves image pod_name admitted =
      let (config, docker, level) = (validate_create-HasConfig C r).0 admitted in
      let (p, is_built, here, serves, secrets) =
        built r image pod_name r.spec.preflight_secret_name in
      (p, is_built, here, serves, config, Secret-HasSecret secrets docker)
