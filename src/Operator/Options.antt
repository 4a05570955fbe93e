-- ===== src/Operator/Options.antt =====
-- The flags of cmd/main.go, and the options of the manager that it makes of them and of the environment.
use cnf_certsuite_operator.Prelude.{
  String, ◌<>◌, Bool, true, false, Option, none, some, List, [], ◌∷◌, if◌then◌else◌,
}
use cnf_certsuite_operator.Go.{Error, errorf}

pub record Flags : Type 0 where
  pub metrics_addr : String
  pub probe_addr : String
  pub enable_leader_election : Bool
  pub secure_metrics : Bool
  pub enable_http2 : Bool

abbrev pub default_flags : Flags
default_flags = record {
  metrics_addr = ":8080";
  probe_addr = ":8081";
  enable_leader_election = false;
  secure_metrics = false;
  enable_http2 = false;
}

-- tls.Config, in the field that is set.
pub record TlsConfig : Type 0 where
  pub next_protos : List String

abbrev pub disable_http2 : TlsConfig → TlsConfig
disable_http2 c = record c { next_protos = "http/1.1" ∷ [] }

unfoldable pub tls_opts : Flags → List (TlsConfig → TlsConfig)
tls_opts flags = if flags.enable_http2 then [] else disable_http2 ∷ []

-- `authenticated` says that the filter provider is set.
pub record MetricsOptions : Type 0 where
  pub bind_address : String
  pub secure_serving : Bool
  pub tls_opts : List (TlsConfig → TlsConfig)
  pub authenticated : Bool

unfoldable pub metrics_server_options : Flags → MetricsOptions
unfolding tls_opts
metrics_server_options flags =
    let o : MetricsOptions = record {
      bind_address = flags.metrics_addr;
      secure_serving = flags.secure_metrics;
      tls_opts = tls_opts flags;
      authenticated = false;
    } in
    if flags.secure_metrics then record o { authenticated = true } else o

abbrev pub watch_namespace_env_var : String
watch_namespace_env_var = "WATCH_NAMESPACE"

-- The namespace and the error; both are returned.
unfoldable pub watch_namespace_of : Option String → String × Option Error
watch_namespace_of none = ("", some (errorf (watch_namespace_env_var <> " must be set")))
watch_namespace_of (some ns) = (ns, none)

unfoldable pub get_watch_namespace : (String → Option String) → String × Option Error
unfolding watch_namespace_of
get_watch_namespace lookup_env = watch_namespace_of (lookup_env watch_namespace_env_var)

-- The keys of the cache's namespaces.
pub record ManagerOptions : Type 0 where
  pub metrics : MetricsOptions
  pub webhook_tls_opts : List (TlsConfig → TlsConfig)
  pub health_probe_bind_address : String
  pub leader_election : Bool
  pub leader_election_id : String
  pub default_namespaces : List String

-- An error of the watched namespace is only logged.
unfoldable pub manager_options : (String → Option String) → Flags → ManagerOptions
unfolding metrics_server_options tls_opts get_watch_namespace
manager_options lookup_env flags = record {
  metrics = metrics_server_options flags;
  webhook_tls_opts = tls_opts flags;
  health_probe_bind_address = flags.probe_addr;
  leader_election = flags.enable_leader_election;
  leader_election_id = "b7547de4.openshift.io";
  default_namespaces = (get_watch_namespace lookup_env).0 ∷ [];
}
