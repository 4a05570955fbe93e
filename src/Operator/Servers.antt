-- ===== src/Operator/Servers.antt =====
-- The servers and the cache that cmd/main.go configures by its flags and the environment.
use cnf_certsuite_operator.Prelude.{
  String, ◌≡◌, refl, ap, inl, inr, Bool-cases, Bool, Option, none, some, List, [], ◌∷◌,
  if◌then◌else◌,
}
use cnf_certsuite_operator.Operator.Options.{
  Flags, TlsConfig, tls_opts, metrics_server_options, watch_namespace_of, get_watch_namespace,
  manager_options,
}

-- A server applies its options to its configuration in turn.
abbrev pub configured : List (TlsConfig → TlsConfig) → TlsConfig → TlsConfig
configured [] c = c
configured (f ∷ fs) c = configured fs (f c)

abbrev pub protocols : Bool → List String → List String
protocols http2 offered = if http2 then offered else "http/1.1" ∷ []

abbrev pub watched : Option String → String
watched none = ""
watched (some ns) = ns

watch_namespace_of-watched : (o : Option String) → (watch_namespace_of o).0 ≡ watched o
unfolding watch_namespace_of
watch_namespace_of-watched none = refl
watch_namespace_of-watched (some ns) = refl

tls_opts-protocols :
    (flags : Flags) (c : TlsConfig)
    → (configured (tls_opts flags) c).next_protos ≡ protocols flags.enable_http2 c.next_protos
unfolding tls_opts
tls_opts-protocols flags c = elim (Bool-cases flags.enable_http2) [
  | inl e ↦ rw e refl
  | inr e ↦ rw e refl
]

metrics_server_options-secure :
    (flags : Flags)
    → ((metrics_server_options flags).tls_opts ≡ tls_opts flags)
      × ((metrics_server_options flags).secure_serving ≡ flags.secure_metrics)
      × ((metrics_server_options flags).authenticated ≡ flags.secure_metrics)
unfolding metrics_server_options
metrics_server_options-secure flags = elim (Bool-cases flags.secure_metrics) [
  | inl e ↦ rw e (refl, refl, refl)
  | inr e ↦ rw e (refl, refl, refl)
]

-- Unless HTTP/2 is enabled, the metrics server and the webhook server both offer HTTP/1.1 alone, and
-- otherwise what they offered before. The metrics are served securely, and their readers
-- authenticated, exactly when the flag asks for it. The cache watches the one namespace of
-- WATCH_NAMESPACE, or all (the empty name) where that is not set.
pub manager_options-protocols :
    (lookup_env : String → Option String) (flags : Flags) (c : TlsConfig)
    → let o = manager_options lookup_env flags in
      ((configured o.metrics.tls_opts c).next_protos ≡ protocols flags.enable_http2 c.next_protos)
      × ((configured o.webhook_tls_opts c).next_protos ≡ protocols flags.enable_http2 c.next_protos)
      × (o.metrics.secure_serving ≡ flags.secure_metrics)
      × (o.metrics.authenticated ≡ flags.secure_metrics)
      × (o.default_namespaces ≡ watched (lookup_env "WATCH_NAMESPACE") ∷ [])
unfolding manager_options get_watch_namespace
manager_options-protocols lookup_env flags c =
    let (opts, secure, authenticated) = metrics_server_options-secure flags in
    (
      rw opts (tls_opts-protocols flags c),
      tls_opts-protocols flags c,
      secure,
      authenticated,
      ap (λ (ns : String). ns ∷ []) (watch_namespace_of-watched (lookup_env "WATCH_NAMESPACE")),
    )
