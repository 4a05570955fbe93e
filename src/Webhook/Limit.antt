-- ===== src/Webhook/Limit.antt =====
-- The number of CertsuiteConsolePlugin resources under the webhook of
-- api/v1alpha1/certsuiteconsoleplugin_webhook.go.
use cnf_certsuite_operator.Prelude.{
  ◌≤◌, String, ◌≡◌, none, List, [], ◌∷◌, ◌++◌, length, length-append, arith,
}
use cnf_certsuite_operator.Api.{CertsuiteConsolePlugin}
use cnf_certsuite_operator.Controller.Cluster.{found}
use cnf_certsuite_operator.Webhook.{
  WebhookClient, check_limit, validate_create_plugin, validate_update_plugin,
  validate_delete_plugin,
}

-- The resources of a cluster whose requests are admitted one at a time, each with the current list.
pub data Plugins (C : WebhookClient) : List CertsuiteConsolePlugin → Type 0 where
  no_plugins : Plugins C []
  create :
      {ps : List CertsuiteConsolePlugin} (p receiver : CertsuiteConsolePlugin)
      → Plugins C ps
      → validate_create_plugin (record C { list_plugins = found ps }) receiver ≡ none
      → Plugins C (ps ++ p ∷ [])
  update :
      (ps qs : List CertsuiteConsolePlugin) (p p' : CertsuiteConsolePlugin)
      → Plugins C (ps ++ p ∷ qs)
      → validate_update_plugin C p p' ≡ none
      → Plugins C (ps ++ p' ∷ qs)
  delete :
      (ps qs : List CertsuiteConsolePlugin) (p : CertsuiteConsolePlugin)
      → Plugins C (ps ++ p ∷ qs)
      → validate_delete_plugin C p ≡ none
      → Plugins C (ps ++ qs)

pub check_limit-empty :
    (C : WebhookClient) (namespace : String) (ps : List CertsuiteConsolePlugin)
    → check_limit C namespace (found ps) ≡ none
    → length ps ≡ 0
unfolding check_limit
check_limit-empty C namespace ps h = ground arith

-- When requests are admitted one at a time, each with the current list, there is at most one
-- CertsuiteConsolePlugin resource, whichever are created, updated and deleted.
length-Plugins :
    {C : WebhookClient} (ps : List CertsuiteConsolePlugin) → Plugins C ps → length ps ≤ 1
unfolding validate_create_plugin
length-Plugins _ no_plugins = omega arith
length-Plugins {C = C} _ (create {ps = ps} p receiver before admitted) =
    omega (arith, length-append ps (p ∷ []), check_limit-empty _ receiver.namespace ps admitted)
length-Plugins _ (update ps qs p p' before admitted) = omega (
  arith,
  length-Plugins (ps ++ p ∷ qs) before,
  length-append ps (p ∷ qs),
  length-append ps (p' ∷ qs),
)
length-Plugins _ (delete ps qs p before admitted) =
    omega
      (arith, length-Plugins (ps ++ p ∷ qs) before, length-append ps (p ∷ qs), length-append ps qs)
