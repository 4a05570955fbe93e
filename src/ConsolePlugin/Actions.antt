-- ===== src/ConsolePlugin/Actions.antt =====
-- The creation and the deletion of the plugin's resources, and `Reconcile`, of
-- internal/controller/certsuiteconsoleplugin_controller.go.
use cnf_certsuite_operator.Prelude.{
  ℕ, String, ◌<>◌, true, false, Option, none, some, List, [], ◌∷◌, ◌++◌, if◌then◌else◌,
}
use cnf_certsuite_operator.Go.{Error, errorf, error_text, is_already_exists, ignore_not_found}
use cnf_certsuite_operator.Action.{◌>>=◌, ◌>>◌, return, fail}
use cnf_certsuite_operator.Api.{NamespacedName, CertsuiteConsolePlugin, Condition}
use cnf_certsuite_operator.Controller.Cluster.{Answer, found, failure}
use cnf_certsuite_operator.Controller.EndOfRun.{CtrlResult, done}
use cnf_certsuite_operator.ConsolePlugin.Platform.{Platform, Object}
use cnf_certsuite_operator.ConsolePlugin.Calls.{
  PluginM, get_plugin, create, delete, update_status, now,
}
use cnf_certsuite_operator.ConsolePlugin.Objects.{annotate, generate_plugin_resources_objs}

abbrev pub resource_creation_condition_type : String
resource_creation_condition_type = "ResourceCreatedSuccessfully"

abbrev pub resource_succeeded_condition_reason : String
resource_succeeded_condition_reason = "ResourceCreationHasSucceeded"

-- "kind (name: … ns: …)"
abbrev pub show_object : {Rest : Type 0} → Object Rest → String
show_object obj = obj.kind <> (" (name: " <> (obj.name <> (" ns: " <> (obj.namespace <> ")"))))

-- The condition of an object, by the error of its creation.
unfoldable pub condition_of : {Rest : Type 0} → Object Rest → Option Error → ℕ → Condition
condition_of obj none time = record {
  condition_type = resource_creation_condition_type;
  status = true;
  reason = resource_succeeded_condition_reason;
  message = show_object obj <> " has been created successfully.";
  last_transition_time = time;
}
condition_of obj (some e) time =
    let c : Condition = record {
      condition_type = resource_creation_condition_type;
      status = false;
      reason = "ResourceCreationFailed";
      message = "failed to create " <> (show_object obj <> (": " <> error_text e));
      last_transition_time = time;
    } in
    if is_already_exists e
    then record c {
      reason = "ResourceAlreadyExists";
      message = show_object obj <> (": " <> (error_text e <> " already exists"));
    }
    else c

module _ (P : Platform) where
  -- The rest of the loop, with the resource that the update has left.
  unfoldable pub after_update :
      (CertsuiteConsolePlugin → PluginM P (Unit {0}))
      → Answer CertsuiteConsolePlugin
      → PluginM P (Unit {0})
  after_update next (found cr) = next cr
  after_update next (failure x) =
      fail (errorf ("failed to update console plugin CR's status conditions: " <> error_text x))

  unfoldable pub create_each : List (Object P.Rest) → CertsuiteConsolePlugin → PluginM P (Unit {0})
  unfolding create now update_status condition_of after_update
  create_each [] cr = return tt
  create_each (obj ∷ objs) cr = do
    e ← create P obj
    time ← now P
    a ← update_status P (record cr { conditions = cr.conditions ++ condition_of obj e time ∷ [] })
    after_update (create_each objs) a

  -- The objects, or the error of their making.
  unfoldable pub plugin_objs_list : PluginM P (List (Object P.Rest))
  unfolding generate_plugin_resources_objs
  plugin_objs_list s = (
    annotate "failed to generate plugin resources: " (generate_plugin_resources_objs P s.world),
    s,
  )

  unfoldable pub create_console_plugin_resources : CertsuiteConsolePlugin → PluginM P (Unit {0})
  unfolding plugin_objs_list create_each
  create_console_plugin_resources console_plugin_cr = do
    objs ← plugin_objs_list
    create_each objs console_plugin_cr

  unfoldable pub after_delete :
      Object P.Rest → PluginM P (Unit {0}) → Option Error → PluginM P (Unit {0})
  after_delete obj next none = next
  after_delete obj next (some x) = fail (
      errorf (
        "error has occurred when trying to delete "
        <> (P.show_kind obj <> (" console plugin's resource: " <> error_text x))))

  unfoldable pub delete_each : List (Object P.Rest) → PluginM P (Unit {0})
  unfolding delete after_delete
  delete_each [] = return tt
  delete_each (obj ∷ objs) = do e ← delete P obj; after_delete obj (delete_each objs) e

  unfoldable pub delete_console_plugin_resources : PluginM P (Unit {0})
  unfolding plugin_objs_list delete_each
  delete_console_plugin_resources = do objs ← plugin_objs_list; delete_each objs

  unfoldable pub annotated : String → PluginM P (Unit {0}) → PluginM P (Unit {0})
  annotated text m s = let (r, t) = m s in (annotate text r, t)

  unfoldable pub ignoring_not_found : Error → PluginM P CtrlResult
  ignoring_not_found e = elim (ignore_not_found e) [ none ↦ return done | some x ↦ fail x ]

  unfoldable pub reconcile_answer : Answer CertsuiteConsolePlugin → PluginM P CtrlResult
  unfolding create_console_plugin_resources delete_console_plugin_resources annotated
      ignoring_not_found
  reconcile_answer (failure get_err) = do
    annotated "unable to delete console plugin resources: " delete_console_plugin_resources
    ignoring_not_found get_err
  reconcile_answer (found console_plugin_cr) = do
    annotated "error has occurred while handling console plugin: "
        (create_console_plugin_resources console_plugin_cr)
    return done

  unfoldable pub reconcile_plugin : NamespacedName → PluginM P CtrlResult
  unfolding get_plugin reconcile_answer
  reconcile_plugin req = do a ← get_plugin P req; reconcile_answer a
