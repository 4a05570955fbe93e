-- ===== src/ConsolePlugin/Reconciled.antt =====
-- `Reconcile` of internal/controller/certsuiteconsoleplugin_controller.go, in both its cases.
use cnf_certsuite_operator.Prelude.{String, ◌≡◌, ◌∙◌, refl, List, [], ◌∷◌, if◌then◌else◌}
use cnf_certsuite_operator.Go.{
  Error, Result, ok, err, is_not_found, api, errorf, not_found, already_exists, conflict, invalid,
  other_reason,
}
use cnf_certsuite_operator.Action.{◌>>=◌, continue, return, fail}
use cnf_certsuite_operator.Api.{NamespacedName, CertsuiteConsolePlugin, Condition}
use cnf_certsuite_operator.Controller.Cluster.{found, failure}
use cnf_certsuite_operator.Controller.EndOfRun.{CtrlResult, done}
use cnf_certsuite_operator.ConsolePlugin.Platform.{Platform, Object, PluginCall}
use cnf_certsuite_operator.ConsolePlugin.Calls.{PluginState, get_plugin}
use cnf_certsuite_operator.ConsolePlugin.Objects.{annotate, generate_plugin_resources_objs}
use cnf_certsuite_operator.ConsolePlugin.Actions.{
  plugin_objs_list, create_console_plugin_resources, delete_console_plugin_resources, annotated,
  create_each, delete_each, ignoring_not_found, reconcile_answer, reconcile_plugin,
}
use cnf_certsuite_operator.ConsolePlugin.Installed.{
  Echoes, Installs, complete, accepted, refused, create_each-Installs,
}
use cnf_certsuite_operator.ConsolePlugin.Removed.{
  Uninstalls, complete, deleted, refused, delete_each-Uninstalls,
}

module _ (P : Platform) where
  -- client.IgnoreNotFound, as a result.
  abbrev pub unless_not_found : Error → Result CtrlResult
  unless_not_found e = if is_not_found e then ok (record { requeue_after = 0 }) else err e

  ignoring_not_found-result :
      (e : Error) (s : PluginState P) → ignoring_not_found P e s ≡ (unless_not_found e, s)
  unfolding ignoring_not_found return fail
  ignoring_not_found-result (api not_found text) s = refl
  ignoring_not_found-result (api already_exists text) s = refl
  ignoring_not_found-result (api conflict text) s = refl
  ignoring_not_found-result (api invalid text) s = refl
  ignoring_not_found-result (api other_reason text) s = refl
  ignoring_not_found-result (errorf text) s = refl

  after_deletion :
      (text : String) (e : Error) (t : PluginState P) {w : P.World} {objs : List (Object P.Rest)}
      {calls : List (PluginCall P.Rest)} {r : Result (Unit {0})}
      → Uninstalls P (ok tt) w objs calls r
      → let m = continue (annotate text r) (λ _. ignoring_not_found P e) t in
        (m.1.calls ≡ t.calls) × Uninstalls P (unless_not_found e) w objs calls m.0
  after_deletion text e t complete = rw (ignoring_not_found-result e t) (refl, complete)
  after_deletion text e t (deleted gone rest) =
      let (same, u) = after_deletion text e t rest in (same, deleted gone u)
  after_deletion text e t (refused x y answer) = (refl, refused x _ answer)

  after_creation :
      (text : String) (t : PluginState P) {w : P.World} {d : List Condition}
      {objs : List (Object P.Rest)} {calls : List (PluginCall P.Rest)} {r : Result (Unit {0})}
      → Installs P tt w d objs calls r
      → let m = continue (annotate text r) (λ _. return done) t in
        (m.1.calls ≡ t.calls) × Installs P done w d objs calls m.0
  unfolding return
  after_creation text t complete = (refl, complete)
  after_creation text t (accepted c cr cr' tells sent answer rest) =
      let (same, i) = after_creation text t rest in (same, accepted c cr cr' tells sent answer i)
  after_creation text t (refused c cr x e tells sent answer) =
      (refl, refused c cr x _ tells sent answer)

  -- When the resource is not read, for whatever reason, and the plugin's objects can be made,
  -- they are deleted, in their order, while each deletion succeeds; the first that fails is the last
  -- call, and the result is an error. If none fails, all are deleted and the result is that of
  -- the read: no error for a resource that is not found, and its error otherwise.
  pub reconcile_plugin-Uninstalls :
      (req : NamespacedName) (w w' : P.World) (get_err : Error) (objs : List (Object P.Rest))
      → P.get_plugin req w ≡ (failure get_err, w')
      → generate_plugin_resources_objs P w' ≡ ok objs
      → let m = reconcile_plugin P req (record { calls = []; world = w }) in
        (calls : List (PluginCall P.Rest)) × (m.1.calls ≡ PluginCall.get_plugin req ∷ calls)
        × Uninstalls P (unless_not_found get_err) w' objs calls m.0
  unfolding reconcile_plugin reconcile_answer delete_console_plugin_resources annotated
      plugin_objs_list ◌>>=◌ get_plugin
  reconcile_plugin-Uninstalls req w w' get_err objs read generated =
      let s : PluginState P = record { calls = PluginCall.get_plugin req ∷ []; world = w' } in
      let (calls, same, u) = delete_each-Uninstalls P objs s in
      let (kept, v) = after_deletion _ get_err (delete_each P objs s).1 u in
      rw (read, generated) (calls, kept ∙ same, v)

  -- When the resource is read, the plugin's objects can be made, and the server answers a status
  -- update with the conditions that it was sent, the objects are sent to be created in their order.
  -- After each one, whether or not it was created, the status is sent with one further condition,
  -- whose status, reason and message tell how the creation went. A failed
  -- creation does not stop the rest: the request fails only with the first status update that fails,
  -- which is then its last call, and otherwise it is done when all objects have been sent.
  pub reconcile_plugin-Installs :
      Echoes P
      → (req : NamespacedName) (w w' : P.World) (cr : CertsuiteConsolePlugin)
        (objs : List (Object P.Rest))
      → P.get_plugin req w ≡ (found cr, w')
      → generate_plugin_resources_objs P w' ≡ ok objs
      → let m = reconcile_plugin P req (record { calls = []; world = w }) in
        (calls : List (PluginCall P.Rest)) × (m.1.calls ≡ PluginCall.get_plugin req ∷ calls)
        × Installs P (record { requeue_after = 0 }) w' cr.conditions objs calls m.0
  unfolding reconcile_plugin reconcile_answer create_console_plugin_resources annotated
      plugin_objs_list ◌>>=◌ get_plugin
  reconcile_plugin-Installs echoes req w w' cr objs read generated =
      let s : PluginState P = record { calls = PluginCall.get_plugin req ∷ []; world = w' } in
      let (calls, same, i) = create_each-Installs P echoes objs cr s in
      let (kept, j) = after_creation _ (create_each P objs cr s).1 i in
      rw (read, generated) (calls, kept ∙ same, j)
