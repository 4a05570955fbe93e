-- ===== src/Webhook/Overlap.antt =====
-- The webhook of api/v1alpha1/certsuiteconsoleplugin_webhook.go under requests that overlap: a resource is
-- admitted first, by the list at that time, and stored later.
use cnf_certsuite_operator.Prelude.{
  ℕ, zero, suc, ◌+◌, ◌≤◌, ◌<◌, ◌≡◌, ◌↔◌, refl, none, List, [], ◌∷◌, ◌++◌, length, length-append,
  arith,
}
use cnf_certsuite_operator.Api.{CertsuiteConsolePlugin}
use cnf_certsuite_operator.Controller.Cluster.{found}
use cnf_certsuite_operator.Webhook.{
  WebhookClient, validate_create_plugin, validate_update_plugin, validate_delete_plugin,
}
use cnf_certsuite_operator.Webhook.Limit.{check_limit-empty}

-- The resources that are stored, and those that are admitted and not yet stored, of which there are at
-- most `k` at any time. One that is admitted may also be refused by a later step.
pub data Traffic (C : WebhookClient) (k : ℕ)
    : List CertsuiteConsolePlugin → List CertsuiteConsolePlugin → Type 0 where
  quiet : Traffic C k [] []
  admit :
      {ps pending : List CertsuiteConsolePlugin} (p receiver : CertsuiteConsolePlugin)
      → Traffic C k ps pending
      → length pending < k
      → validate_create_plugin (record C { list_plugins = found ps }) receiver ≡ none
      → Traffic C k ps (p ∷ pending)
  store :
      {ps : List CertsuiteConsolePlugin} (before after : List CertsuiteConsolePlugin)
      (p : CertsuiteConsolePlugin)
      → Traffic C k ps (before ++ p ∷ after)
      → Traffic C k (ps ++ p ∷ []) (before ++ after)
  refuse :
      {ps : List CertsuiteConsolePlugin} (before after : List CertsuiteConsolePlugin)
      (p : CertsuiteConsolePlugin)
      → Traffic C k ps (before ++ p ∷ after)
      → Traffic C k ps (before ++ after)
  revise :
      {pending : List CertsuiteConsolePlugin} (before after : List CertsuiteConsolePlugin)
      (p p' : CertsuiteConsolePlugin)
      → Traffic C k (before ++ p ∷ after) pending
      → validate_update_plugin C p p' ≡ none
      → Traffic C k (before ++ p' ∷ after) pending
  remove :
      {pending : List CertsuiteConsolePlugin} (before after : List CertsuiteConsolePlugin)
      (p : CertsuiteConsolePlugin)
      → Traffic C k (before ++ p ∷ after) pending
      → validate_delete_plugin C p ≡ none
      → Traffic C k (before ++ after) pending

abbrev copies : CertsuiteConsolePlugin → ℕ → List CertsuiteConsolePlugin
copies p zero = []
copies p (suc m) = p ∷ copies p m

length-copies : (p : CertsuiteConsolePlugin) (m : ℕ) → length (copies p m) ≡ m
length-copies p zero = refl
length-copies p (suc m) = ground (arith, length-copies p m)

module _ {C : WebhookClient} {k : ℕ} where
  Traffic-bound :
      (ps pending : List CertsuiteConsolePlugin)
      → Traffic C k ps pending
      → length ps + length pending ≤ k
  unfolding validate_create_plugin
  Traffic-bound _ _ quiet = omega arith
  Traffic-bound _ _ (admit {ps = ps} {pending = pending} p receiver before less admitted) =
      omega (arith, less, check_limit-empty _ receiver.namespace ps admitted)
  Traffic-bound _ _ (store {ps = ps} ls rs p before) = omega (
    arith,
    Traffic-bound ps (ls ++ p ∷ rs) before,
    length-append ls (p ∷ rs),
    length-append ls rs,
    length-append ps (p ∷ []),
  )
  Traffic-bound _ _ (refuse {ps = ps} ls rs p before) = omega (
    arith,
    Traffic-bound ps (ls ++ p ∷ rs) before,
    length-append ls (p ∷ rs),
    length-append ls rs,
  )
  Traffic-bound _ _ (revise {pending = pending} ls rs p p' before admitted) = omega (
    arith,
    Traffic-bound (ls ++ p ∷ rs) pending before,
    length-append ls (p ∷ rs),
    length-append ls (p' ∷ rs),
  )
  Traffic-bound _ _ (remove {pending = pending} ls rs p before admitted) = omega (
    arith,
    Traffic-bound (ls ++ p ∷ rs) pending before,
    length-append ls (p ∷ rs),
    length-append ls rs,
  )

  module _ (p : CertsuiteConsolePlugin) where
    all_admitted : (m : ℕ) → m ≤ k → Traffic C k [] (copies p m)
    unfolding validate_create_plugin
    all_admitted zero h = quiet
    all_admitted (suc m) h =
        admit p p (all_admitted m (omega (arith, h))) (omega (arith, h, length-copies p m)) refl

    all_stored :
        (m : ℕ) (ps : List CertsuiteConsolePlugin)
        → Traffic C k ps (copies p m)
        → (qs : List CertsuiteConsolePlugin) × Traffic C k qs [] × (length qs ≡ length ps + m)
    all_stored zero ps t = (ps, t, omega arith)
    all_stored (suc m) ps t =
        let (qs, u, e) = all_stored m (ps ++ p ∷ []) (store [] (copies p m) p t) in
        (qs, u, omega (arith, e, length-append ps (p ∷ [])))

  -- Let at most `k` requests be open at the same time, each admitted by the list as it is then and stored
  -- or refused later, with updates and deletions in between. The numbers of resources that can come to be stored,
  -- with no request left open, are exactly those up to `k`: one at a time keeps the limit of one, and
  -- two requests that overlap can break it.
  pub Traffic-limit :
      (p : CertsuiteConsolePlugin) (n : ℕ)
      → ((ps : List CertsuiteConsolePlugin) × Traffic C k ps [] × (length ps ≡ n)) ↔ (n ≤ k)
  Traffic-limit p n = (
    (λ (ps, t, e). omega (arith, Traffic-bound ps [] t, e)),
    (λ h. let (ps, t, e) = all_stored p n [] (all_admitted p n h) in (ps, t, omega (arith, e))),
  )
