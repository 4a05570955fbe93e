-- ===== src/ConsolePlugin/Examples.antt =====
-- A plugin of two files in memory; an object of one of them exists already.
use cnf_certsuite_operator.Prelude.{
  String, ◌≡◌, ◌↔◌, refl, sym, ap, none, some, List, [], ◌∷◌, str_eq, if◌then◌else◌,
}
use cnf_certsuite_operator.Go.{Error, ok, api, already_exists, other_reason}
use cnf_certsuite_operator.Api.{NamespacedName, CertsuiteConsolePlugin}
use cnf_certsuite_operator.Controller.Cluster.{Answer, found, failure}
use cnf_certsuite_operator.ConsolePlugin.Platform.{Platform, Object, PluginCall}
use cnf_certsuite_operator.ConsolePlugin.Objects.{generate_plugin_resources_objs}
use cnf_certsuite_operator.ConsolePlugin.Actions.{reconcile_plugin}
use cnf_certsuite_operator.ConsolePlugin.Loaded.{Loads, generate_plugin_resources_objs-Loads}
use cnf_certsuite_operator.ConsolePlugin.Installed.{Echoes, Installs}
use cnf_certsuite_operator.ConsolePlugin.Removed.{Uninstalls}
use cnf_certsuite_operator.ConsolePlugin.Reconciled.{
  unless_not_found, reconcile_plugin-Uninstalls, reconcile_plugin-Installs,
}

abbrev decoded : String → Object (Unit {0})
decoded file = record { kind = "Deployment"; name = file; namespace = ""; rest = tt }

abbrev placed : String → Object (Unit {0})
placed file = record { kind = "Deployment"; name = file; namespace = "operators"; rest = tt }

abbrev sample_plugin : CertsuiteConsolePlugin
sample_plugin = record { name = "plugin"; namespace = "operators"; conditions = [] }

abbrev no_access : Error
no_access = api other_reason "connection refused"

-- The world is the answer to the read of the resource.
abbrev platform : Platform
platform = record {
  World = Answer CertsuiteConsolePlugin;
  Bytes = String;
  Rest = Unit {0};
  get_plugin = λ n w. (w, w);
  create = λ o w.
      (if str_eq o.name "first.yaml" then some (api already_exists "already exists") else none, w);
  delete = λ o w. (if str_eq o.name "first.yaml" then some no_access else none, w);
  update_status = λ cr w. (found cr, w);
  now = λ w. 0;
  read_dir = λ dir w. found ("first.yaml" ∷ "second.yaml" ∷ []);
  read_file = λ path w. found path;
  lookup_env = λ name w. some "operators";
  decode = λ path. found (some (decoded path));
  show_kind = λ o. o.kind;
}

abbrev plugin_name : NamespacedName
plugin_name = record { namespace = "operators"; name = "plugin" }

abbrev objects : List (Object (Unit {0}))
objects = placed "/plugin/first.yaml" ∷ placed "/plugin/second.yaml" ∷ []

objects_made :
    (w : Answer CertsuiteConsolePlugin) → generate_plugin_resources_objs platform w ≡ ok objects
unfolding generate_plugin_resources_objs
objects_made w = refl

platform-Echoes : Echoes platform
platform-Echoes cr cr' w answer =
    ap (λ (a : Answer CertsuiteConsolePlugin). elim a [ found x ↦ x.conditions | failure e ↦ [] ])
      (sym answer)

generate_plugin_resources_objs-Loads_example :
    (generate_plugin_resources_objs platform (found sample_plugin) ≡ ok objects)
    ↔ Loads platform (found sample_plugin) objects
generate_plugin_resources_objs-Loads_example =
    generate_plugin_resources_objs-Loads platform (found sample_plugin) objects

reconcile_plugin-Uninstalls_example :
    let m =
      reconcile_plugin platform plugin_name (record { calls = []; world = failure no_access }) in
    (calls : List (PluginCall (Unit {0}))) × (m.1.calls ≡ PluginCall.get_plugin plugin_name ∷ calls)
    × Uninstalls platform
        (unless_not_found platform no_access)
        (failure no_access)
        objects
        calls
        m.0
reconcile_plugin-Uninstalls_example =
    reconcile_plugin-Uninstalls platform plugin_name (failure no_access) (failure no_access)
      no_access objects refl (objects_made (failure no_access))

reconcile_plugin-Installs_example :
    let m =
      reconcile_plugin platform plugin_name (record { calls = []; world = found sample_plugin }) in
    (calls : List (PluginCall (Unit {0}))) × (m.1.calls ≡ PluginCall.get_plugin plugin_name ∷ calls)
    × Installs platform (record { requeue_after = 0 }) (found sample_plugin) [] objects calls m.0
reconcile_plugin-Installs_example =
    reconcile_plugin-Installs platform platform-Echoes plugin_name (found sample_plugin)
      (found sample_plugin) sample_plugin objects refl (objects_made (found sample_plugin))
