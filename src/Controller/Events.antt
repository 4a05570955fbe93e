-- ===== src/Controller/Events.antt =====
-- The event filter of internal/controller/certsuiterun_controller.go, and of
-- certsuiteconsoleplugin_controller.go: which events of a resource make a request.
use cnf_certsuite_operator.Prelude.{Bool, true, false, Option, none, some}
use cnf_certsuite_operator.Api.{NamespacedName}

-- The events of controller-runtime, of the resource with the name.
pub data Event : Type 0 where
  create_event update_event delete_event generic_event : NamespacedName → Event

-- predicate.Funcs
pub record Predicate : Type 0 where
  pub create_func : Option (NamespacedName → Bool)
  pub delete_func : Option (NamespacedName → Bool)
  pub update_func : Option (NamespacedName → Bool)
  pub generic_func : Option (NamespacedName → Bool)

unfoldable pub ignore_update_in_certsuite_run : Predicate
ignore_update_in_certsuite_run = record {
  create_func = none;
  delete_func = none;
  update_func = some (λ n. false);
  generic_func = none;
}

unfoldable pub ignore_update_in_certsuite_console_plugin : Predicate
ignore_update_in_certsuite_console_plugin = record {
  create_func = none;
  delete_func = none;
  update_func = some (λ n. false);
  generic_func = none;
}

-- A function that is not set lets every event pass.
abbrev pub pass : Option (NamespacedName → Bool) → NamespacedName → Bool
pass none n = true
pass (some f) n = f n

abbrev pub passes : Predicate → Event → Bool
passes p (create_event n) = pass p.create_func n
passes p (update_event n) = pass p.update_func n
passes p (delete_event n) = pass p.delete_func n
passes p (generic_event n) = pass p.generic_func n
