-- ===== src/Webhook.antt =====
-- The admission webhooks of api/v1alpha1/certsuiterun_webhook.go and
-- api/v1alpha1/certsuiteconsoleplugin_webhook.go. Their client's answers are parameters, and
-- `none` admits a resource. `strings.ToLower` maps code points: those beyond ASCII by the
-- parameter `lower`.
pub mod Accepted
pub mod Limit
pub mod Overlap
pub mod Configured
mod Examples
use cnf_certsuite_operator.Prelude.{
  ℕ, ◌+◌, String, ◌<>◌, Bool, true, false, ◌&&◌, ◌||◌, Option, none, some, List, [], ◌∷◌, map,
  length, str_eq, leb, ltb, ◌==◌, if◌then◌else◌,
}
use cnf_certsuite_operator.Prelude.Decimal.{decimal}
use cnf_certsuite_operator.Prelude.Dict.{Dict, lookup}
use cnf_certsuite_operator.Prelude.Eq.{string_eq}
use cnf_certsuite_operator.Go.{Error, errorf, error_text}
use cnf_certsuite_operator.Duration.{codes}
use cnf_certsuite_operator.Api.{NamespacedName, CertsuiteRun, CertsuiteConsolePlugin}
use cnf_certsuite_operator.Controller.Cluster.{Answer, found, failure}

-- The client, and the two functions of the standard library.
pub record WebhookClient : Type 0 where
  pub get_config_map : NamespacedName → Answer (Dict String String)
  pub get_secret : NamespacedName → Answer (Dict String (List ℕ))
  pub list_plugins : Answer (List CertsuiteConsolePlugin)
  pub lower : ℕ → ℕ
  -- `%q`
  pub quote : List ℕ → String

abbrev pub equal_codes : List ℕ → List ℕ → Bool
equal_codes [] [] = true
equal_codes (x ∷ xs) (y ∷ ys) = x == y && equal_codes xs ys
equal_codes _ _ = false

module _ (C : WebhookClient) where
  abbrev pub lower_code : ℕ → ℕ
  lower_code c = if leb b'A' c && leb c b'Z' then c + 32 else if ltb c 128 then c else C.lower c

  -- strings.ToLower
  unfoldable pub to_lower : String → List ℕ
  to_lower s = map lower_code (codes s)

  -- The value's test of the config map, when the map has been read.
  unfoldable pub check_config : Option String → Option Error
  check_config none = some (
      errorf
        "config map's 'tnf_config.yaml' field must be set with a non-empty and valid configuration yaml for the CNF Certification Suite")
  check_config (some value) =
      if str_eq value ""
      then some (
          errorf
            "config map's 'tnf_config.yaml' field must be set with a non-empty and valid configuration yaml for the CNF Certification Suite")
      else none

  unfoldable pub check_config_map : Answer (Dict String String) → Option Error
  unfolding check_config lookup
  check_config_map (failure e) = some e
  check_config_map (found values) = check_config (lookup "tnf_config.yaml" values)

  unfoldable pub validate_config_map : CertsuiteRun → Option Error
  unfolding check_config_map
  validate_config_map r =
      if str_eq r.spec.config_map_name ""
      then some (errorf "spec.configMapName must not be an empty string")
      else check_config_map
          (C.get_config_map (record { namespace = r.namespace; name = r.spec.config_map_name }))

  unfoldable pub check_docker_config : Option (List ℕ) → Option Error
  check_docker_config (some (x ∷ value)) = none
  check_docker_config _ = some (
      errorf
        "preflight secret's 'preflight_dockerconfig.json' field must be set with a valid docker config json content")

  unfoldable pub check_secret : Answer (Dict String (List ℕ)) → Option Error
  unfolding check_docker_config lookup
  check_secret (failure e) = some e
  check_secret (found values) = check_docker_config (lookup "preflight_dockerconfig.json" values)

  -- A secret that is not named is valid.
  unfoldable pub validate_secret_named : String → Option String → Option Error
  unfolding check_secret
  validate_secret_named namespace none = none
  validate_secret_named namespace (some name) =
      check_secret (C.get_secret (record { namespace = namespace; name = name }))

  unfoldable pub validate_preflight_secret : CertsuiteRun → Option Error
  unfolding validate_secret_named
  validate_preflight_secret r = validate_secret_named r.namespace r.spec.preflight_secret_name

  unfoldable pub is_log_level : List ℕ → Bool
  is_log_level l =
      equal_codes l (codes "info")
      || equal_codes l (codes "debug")
      || equal_codes l (codes "warn")
      || equal_codes l (codes "warning")
      || equal_codes l (codes "error")

  unfoldable pub validate_log_level : CertsuiteRun → Option Error
  unfolding is_log_level to_lower
  validate_log_level r =
      let log_level_lower_case = to_lower r.spec.log_level in
      if is_log_level log_level_lower_case
      then none
      else some (errorf ("not a valid slog Level: " <> C.quote log_level_lower_case))

  -- `if err != nil { return err }`
  unfoldable pub or_else : Option Error → Option Error → Option Error
  or_else (some e) next = some e
  or_else none next = next

  unfoldable pub validate_create : CertsuiteRun → Option Error
  unfolding or_else validate_config_map validate_preflight_secret validate_log_level
  validate_create r =
      or_else (validate_config_map r) (or_else (validate_preflight_secret r) (validate_log_level r))

  unfoldable pub validate_update : CertsuiteRun → CertsuiteRun → Option Error
  validate_update old r = none

  unfoldable pub validate_delete : CertsuiteRun → Option Error
  validate_delete r = none

  abbrev pub console_plugin_crs_num_limit : ℕ
  console_plugin_crs_num_limit = 1

  -- The limit's test on the listed resources; the receiver's namespace is that of an empty
  -- resource.
  unfoldable pub check_limit : String → Answer (List CertsuiteConsolePlugin) → Option Error
  check_limit namespace (failure e) = some (
      errorf (
        "unable to list CertsuiteConsolePlugin CRs (ns: "
        <> (namespace <> ("): " <> error_text e))))
  check_limit namespace (found items) =
      if leb console_plugin_crs_num_limit (length items)
      then some (
          errorf (
            "unable to create CR. certsuiteConsolePlugin CR count limit: "
            <> (decimal console_plugin_crs_num_limit
                <> (", certsuiteConsolePlugin CR current count: " <> decimal (length items)))))
      else none

  unfoldable pub validate_create_plugin : CertsuiteConsolePlugin → Option Error
  unfolding check_limit
  validate_create_plugin receiver = check_limit receiver.namespace C.list_plugins

  unfoldable pub validate_update_plugin :
      CertsuiteConsolePlugin → CertsuiteConsolePlugin → Option Error
  validate_update_plugin old r = none

  unfoldable pub validate_delete_plugin : CertsuiteConsolePlugin → Option Error
  validate_delete_plugin r = none
