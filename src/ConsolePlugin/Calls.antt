-- ===== src/ConsolePlugin/Calls.antt =====
-- The calls of internal/controller/certsuiteconsoleplugin_controller.go, each of them recorded.
use cnf_certsuite_operator.Prelude.{ℕ, Option, List, [], ◌∷◌, ◌++◌}
use cnf_certsuite_operator.Go.{Error, ok}
use cnf_certsuite_operator.Action.{Action}
use cnf_certsuite_operator.Api.{NamespacedName, CertsuiteConsolePlugin}
use cnf_certsuite_operator.Controller.Cluster.{Answer}
use cnf_certsuite_operator.ConsolePlugin.Platform.{Platform, Object, PluginCall}

pub record PluginState (P : Platform) : Type 0 where
  pub calls : List (PluginCall P.Rest)
  pub world : P.World

module _ (P : Platform) where
  abbrev pub PluginM : Type 0 → Type 0
  PluginM A = Action (PluginState P) A

  unfoldable pub get_plugin : NamespacedName → PluginM (Answer CertsuiteConsolePlugin)
  get_plugin n s =
      let (a, w) = P.get_plugin n s.world in
      (ok a, record { calls = s.calls ++ PluginCall.get_plugin n ∷ []; world = w })

  unfoldable pub create : Object P.Rest → PluginM (Option Error)
  create obj s =
      let (e, w) = P.create obj s.world in
      (ok e, record { calls = s.calls ++ PluginCall.create obj ∷ []; world = w })

  unfoldable pub delete : Object P.Rest → PluginM (Option Error)
  delete obj s =
      let (e, w) = P.delete obj s.world in
      (ok e, record { calls = s.calls ++ PluginCall.delete obj ∷ []; world = w })

  unfoldable pub update_status : CertsuiteConsolePlugin → PluginM (Answer CertsuiteConsolePlugin)
  update_status cr s =
      let (a, w) = P.update_status cr s.world in
      (ok a, record { calls = s.calls ++ PluginCall.update_status cr ∷ []; world = w })

  unfoldable pub now : PluginM ℕ
  now s = (ok (P.now s.world), s)
