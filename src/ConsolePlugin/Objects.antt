-- ===== src/ConsolePlugin/Objects.antt =====
-- The plugin's objects, from the files of the operator's image
-- (internal/controller/certsuiteconsoleplugin_controller.go).
use cnf_certsuite_operator.Prelude.{String, ◌<>◌, Option, none, some, List, [], ◌∷◌, ◌++◌}
use cnf_certsuite_operator.Go.{Result, ok, err, panic, errorf, error_text, type_assertion, ◌>>=◌}
use cnf_certsuite_operator.Definitions.{controller_namespace_env_var}
use cnf_certsuite_operator.Controller.Cluster.{Answer, found, failure}
use cnf_certsuite_operator.ConsolePlugin.Platform.{Platform, Object}

abbrev pub from_answer : {A : Type 0} → Answer A → Result A
from_answer (found a) = ok a
from_answer (failure e) = err e

-- obj.(client.Object)
abbrev pub client_object : {A : Type 0} → Option A → Result A
client_object none = panic type_assertion
client_object (some a) = ok a

-- An error in a text of its own, with `%v`.
abbrev pub annotate : {A : Type 0} → String → Result A → Result A
annotate text (ok a) = ok a
annotate text (err e) = err (errorf (text <> error_text e))
annotate text (panic p) = panic p

abbrev pub plugin_dir : String
plugin_dir = "/plugin"

module _ (P : Platform) (w : P.World) where
  unfoldable pub generate_single_plugin_resource_obj : String → String → Result (Object P.Rest)
  generate_single_plugin_resource_obj file_path ns = do
    yaml_file ← from_answer (P.read_file file_path w)
    decoded ← from_answer (P.decode yaml_file)
    obj ← client_object decoded
    ok (record obj { namespace = ns })

  -- The loop over the files, with the list so far.
  unfoldable pub generate_each :
      String → List String → List (Object P.Rest) → Result (List (Object P.Rest))
  unfolding generate_single_plugin_resource_obj
  generate_each ns [] plugin_obj_list = ok plugin_obj_list
  generate_each ns (file ∷ yaml_files) plugin_obj_list = do
    obj ← generate_single_plugin_resource_obj (plugin_dir <> ("/" <> file)) ns
    generate_each ns yaml_files (plugin_obj_list ++ obj ∷ [])

  unfoldable pub generate_in : Option String → List String → Result (List (Object P.Rest))
  unfolding generate_each
  generate_in none yaml_files =
      err (errorf ("controller ns env var \"" <> (controller_namespace_env_var <> "\" not found")))
  generate_in (some controller_ns) yaml_files = generate_each controller_ns yaml_files []

  unfoldable pub generate_plugin_resources_objs : Result (List (Object P.Rest))
  unfolding generate_in
  generate_plugin_resources_objs = do
    yaml_files ← from_answer (P.read_dir plugin_dir w)
    generate_in (P.lookup_env controller_namespace_env_var w) yaml_files
