-- ===== src/Webhook/Accepted.antt =====
-- The runs that the webhook of api/v1alpha1/certsuiterun_webhook.go admits.
use cnf_certsuite_operator.Prelude.{
  some_inj, ℕ, String, ◌≡◌, ◌≢◌, ◌↔◌, ◌⊎◌, inl, inr, refl, sym, ◌∙◌, true, Option, none, some, List,
  [], ◌∷◌, arith, str_eq, eq_iff, Bool-cases,
}
use cnf_certsuite_operator.Prelude.Dict.{Dict, lookup}
use cnf_certsuite_operator.Prelude.Eq.{string_eq}
use cnf_certsuite_operator.Go.{Error}
use cnf_certsuite_operator.Duration.{codes}
use cnf_certsuite_operator.Api.{CertsuiteRun}
use cnf_certsuite_operator.Controller.Cluster.{found_inj, Answer, found, failure}
use cnf_certsuite_operator.Webhook.{
  WebhookClient, equal_codes, to_lower, check_config, check_config_map, validate_config_map,
  check_docker_config, check_secret, validate_secret_named, validate_preflight_secret, is_log_level,
  validate_log_level, or_else, validate_create,
}

-- One of the texts.
abbrev pub IsOneOf : List ℕ → List String → Type 0
IsOneOf l [] = ⊥
IsOneOf l (s ∷ ss) = (l ≡ codes s) ⊎ IsOneOf l ss

abbrev pub log_levels : List String
log_levels = "info" ∷ "debug" ∷ "warn" ∷ "warning" ∷ "error" ∷ []

some_not_none : {A : Type 0} {x : A} → some x ≡ none → ⊥
some_not_none e = cc

module _ (C : WebhookClient) (r : CertsuiteRun) where
  -- The config map that is named holds a configuration.
  abbrev pub HasConfig : Type 0
  HasConfig =
      (values : Dict String String) × (value : String) × (r.spec.config_map_name ≢ "")
      × (C.get_config_map (record { namespace = r.namespace; name = r.spec.config_map_name })
          ≡ found values)
      × (lookup "tnf_config.yaml" values ≡ some value)
      × (value ≢ "")

  -- No secret is named, or the one that is holds a docker configuration.
  abbrev pub HasSecret : Type 0
  HasSecret =
      (r.spec.preflight_secret_name ≡ none)
      ⊎ ((name : String) × (values : Dict String (List ℕ)) × (x : ℕ) × (value : List ℕ)
          × (r.spec.preflight_secret_name ≡ some name)
          × (C.get_secret (record { namespace = r.namespace; name = name }) ≡ found values)
          × (lookup "preflight_dockerconfig.json" values ≡ some (x ∷ value)))

  or_else_iff : (a b : Option Error) → (or_else C a b ≡ none) ↔ ((a ≡ none) × (b ≡ none))
  unfolding or_else
  or_else_iff none b = ((λ h. (refl, h)), (λ h. h.1))
  or_else_iff (some e) b = ((λ h. cc), (λ h. h.0))

  equal_codes_iff : (a b : List ℕ) → (equal_codes a b ≡ true) ↔ (a ≡ b)
  equal_codes_iff [] [] = ((λ h. refl), (λ h. refl))
  equal_codes_iff [] (y ∷ ys) = ground arith
  equal_codes_iff (x ∷ xs) [] = ground arith
  equal_codes_iff (x ∷ xs) (y ∷ ys) = ground (arith, equal_codes_iff xs ys)

  validate_log_level_iff :
      (validate_log_level C r ≡ none) ↔ IsOneOf (to_lower C r.spec.log_level) log_levels
  unfolding validate_log_level is_log_level
  validate_log_level_iff =
      let l = to_lower C r.spec.log_level in
      ground (
        arith,
        equal_codes_iff l (codes "info"),
        equal_codes_iff l (codes "debug"),
        equal_codes_iff l (codes "warn"),
        equal_codes_iff l (codes "warning"),
        equal_codes_iff l (codes "error"),
      )

  check_config_iff :
      (o : Option String)
      → (check_config C o ≡ none) ↔ ((value : String) × (o ≡ some value) × (value ≢ ""))
  unfolding check_config
  check_config_iff none = ((λ h. cc), (λ (value, e, n). cc))
  check_config_iff (some v) = elim (Bool-cases (str_eq v "")) [
    | inl blank ↦
        rw blank ((λ h. cc), (λ (value, e, n). absurd (n (ground (arith, e, blank, eq_iff v "")))))
    | inr other ↦
        rw other ((λ h. (v, refl, λ q. ground (arith, q, other, eq_iff v ""))), (λ t. refl))
  ]

  check_config_map_iff :
      (a : Answer (Dict String String))
      → (check_config_map C a ≡ none) ↔ (
          (values : Dict String String) × (value : String) × (a ≡ found values)
          × (lookup "tnf_config.yaml" values ≡ some value)
          × (value ≢ ""))
  unfolding check_config_map
  check_config_map_iff (failure e) = ((λ h. cc), (λ (values, value, answer, l, n). cc))
  check_config_map_iff (found values) = (
    (λ h.
        let (value, l, n) = (check_config_iff (lookup "tnf_config.yaml" values)).0 h in
        (values, value, refl, l, n)),
    (λ (values', value, answer, l, n).
        let same : values ≡ values' = found_inj answer in
        (check_config_iff (lookup "tnf_config.yaml" values)).1 (value, rw same l, n)),
  )

  validate_config_map-HasConfig : (validate_config_map C r ≡ none) ↔ HasConfig
  unfolding validate_config_map
  validate_config_map-HasConfig =
      let read =
        check_config_map_iff
          (C.get_config_map (record { namespace = r.namespace; name = r.spec.config_map_name })) in
      elim (Bool-cases (str_eq r.spec.config_map_name "")) [
        | inl blank ↦ rw blank (
          (λ h. cc),
          (λ (values, value, named, answer, l, n).
              absurd (named ((eq_iff r.spec.config_map_name "").0 blank))),
        )
        | inr other ↦ rw other (
          (λ h.
              let (values, value, answer, l, n) = read.0 h in
              (
                values,
                value,
                (λ q. ground (arith, q, other, eq_iff r.spec.config_map_name "")),
                answer,
                l,
                n,
              )),
          (λ (values, value, named, answer, l, n). read.1 (values, value, answer, l, n)),
        )
      ]

  check_docker_config_iff :
      (o : Option (List ℕ))
      → (check_docker_config C o ≡ none) ↔ ((x : ℕ) × (value : List ℕ) × (o ≡ some (x ∷ value)))
  unfolding check_docker_config
  check_docker_config_iff none = ((λ h. cc), (λ (x, value, e). cc))
  check_docker_config_iff (some []) = ((λ h. cc), (λ (x, value, e). ground (arith, e)))
  check_docker_config_iff (some (x ∷ value)) = ((λ h. (x, value, refl)), (λ t. refl))

  check_secret_iff :
      (a : Answer (Dict String (List ℕ)))
      → (check_secret C a ≡ none) ↔ (
          (values : Dict String (List ℕ)) × (x : ℕ) × (value : List ℕ) × (a ≡ found values)
          × (lookup "preflight_dockerconfig.json" values ≡ some (x ∷ value)))
  unfolding check_secret
  check_secret_iff (failure e) = ((λ h. cc), (λ (values, x, value, answer, l). cc))
  check_secret_iff (found values) = (
    (λ h.
        let (x, value, l) =
          (check_docker_config_iff (lookup "preflight_dockerconfig.json" values)).0 h in
        (values, x, value, refl, l)),
    (λ (values', x, value, answer, l).
        let same : values ≡ values' = found_inj answer in
        (check_docker_config_iff (lookup "preflight_dockerconfig.json" values)).1
          (x, value, rw same l)),
  )

  validate_secret_named-HasSecret :
      (o : Option String)
      → r.spec.preflight_secret_name ≡ o
      → (validate_secret_named C r.namespace o ≡ none) ↔ HasSecret
  unfolding validate_secret_named
  validate_secret_named-HasSecret none e = ((λ h. inl e), (λ h. refl))
  validate_secret_named-HasSecret (some name) e =
      let read =
        check_secret_iff (C.get_secret (record { namespace = r.namespace; name = name })) in
      (
        (λ h.
            let (values, x, value, answer, l) = read.0 h in
            inr (name, values, x, value, e, answer, l)),
        (λ h. elim h [
          | inl missing ↦ absurd (some_not_none (sym e ∙ missing))
          | inr (name', values, x, value, e', answer, l) ↦
              let same : name ≡ name' = some_inj (sym e ∙ e') in
              read.1 (values, x, value, rw same answer, l)
        ]),
      )

  -- A run is admitted if and only if it names a config map that can be read and whose
  -- tnf_config.yaml is not empty, its preflight secret, if it names one, can be read and its
  -- preflight_dockerconfig.json is not empty, and its log level, in lower case, is info, debug,
  -- warn, warning or error.
  pub validate_create-HasConfig :
      (validate_create C r ≡ none)
      ↔ (HasConfig × HasSecret × IsOneOf (to_lower C r.spec.log_level) log_levels)
  unfolding validate_create validate_preflight_secret
  validate_create-HasConfig =
      let secret = validate_secret_named-HasSecret r.spec.preflight_secret_name refl in
      let first =
        or_else_iff (validate_config_map C r)
          (or_else C (validate_preflight_secret C r) (validate_log_level C r)) in
      let second = or_else_iff (validate_preflight_secret C r) (validate_log_level C r) in
      (
        (λ h.
            let (c, rest) = first.0 h in
            let (s, l) = second.0 rest in
            (validate_config_map-HasConfig.0 c, secret.0 s, validate_log_level_iff.0 l)),
        (λ (c, s, l).
            first.1 (
              validate_config_map-HasConfig.1 c,
              second.1 (secret.1 s, validate_log_level_iff.1 l),
            )),
      )
