-- ===== src/ConsolePlugin/Loaded.antt =====
-- Which objects `generatePluginResourcesObjs` of
-- internal/controller/certsuiteconsoleplugin_controller.go makes, and when it makes any.
use mathlib.Core.List.{append-nil, append_assoc}
use cnf_certsuite_operator.Prelude.{
  String, ◌<>◌, ◌≡◌, ◌↔◌, refl, sym, ap, ◌∙◌, Option, none, some, List, [], ◌∷◌, ◌++◌, All2,
}
use cnf_certsuite_operator.Go.{ok, >>=-ok, ok_inj}
use cnf_certsuite_operator.Definitions.{controller_namespace_env_var}
use cnf_certsuite_operator.Controller.Cluster.{Answer, found, failure}
use cnf_certsuite_operator.ConsolePlugin.Platform.{Platform, Object}
use cnf_certsuite_operator.ConsolePlugin.Objects.{
  from_answer, client_object, plugin_dir, generate_single_plugin_resource_obj, generate_each,
  generate_in, generate_plugin_resources_objs,
}

from_answer-ok : {A : Type 0} (a : Answer A) (x : A) → from_answer a ≡ ok x → a ≡ found x
from_answer-ok (found y) x h = ap found (ok_inj h)
from_answer-ok (failure e) x h = cc

client_object-ok : {A : Type 0} (a : Option A) (x : A) → client_object a ≡ ok x → a ≡ some x
client_object-ok (some y) x h = ap some (ok_inj h)
client_object-ok none x h = cc

module _ (P : Platform) (w : P.World) where
  -- The object that a file of the directory holds, in another namespace.
  abbrev pub FromFile : String → String → Object P.Rest → Type 0
  FromFile ns file obj =
      (b : P.Bytes) × (decoded : Object P.Rest) × (P.read_file (plugin_dir <> ("/" <> file)) w
        ≡ found b)
      × (P.decode b ≡ found (some decoded))
      × (obj ≡ record decoded { namespace = ns })

  single-FromFile :
      (ns file : String) (obj : Object P.Rest)
      → generate_single_plugin_resource_obj P w (plugin_dir <> ("/" <> file)) ns ≡ ok obj
      → FromFile ns file obj
  unfolding generate_single_plugin_resource_obj
  single-FromFile ns file obj h =
      let (b, read, h1) = >>=-ok (from_answer (P.read_file (plugin_dir <> ("/" <> file)) w)) _ h in
      let (d, decodes, h2) = >>=-ok (from_answer (P.decode b)) _ h1 in
      let (o, is_object, h3) = >>=-ok (client_object d) _ h2 in
      (
        b,
        o,
        from_answer-ok _ b read,
        from_answer-ok _ d decodes ∙ ap found (client_object-ok d o is_object),
        sym (ok_inj h3),
      )

  FromFile-single :
      (ns file : String) (obj : Object P.Rest)
      → FromFile ns file obj
      → generate_single_plugin_resource_obj P w (plugin_dir <> ("/" <> file)) ns ≡ ok obj
  unfolding generate_single_plugin_resource_obj
  FromFile-single ns file obj (b, decoded, read, decodes, same) =
      rw (read, decodes) (ap ok (sym same))

  generate_each-FromFile :
      (ns : String) (files : List String) (acc objs : List (Object P.Rest))
      → generate_each P w ns files acc ≡ ok objs
      → (rest : List (Object P.Rest)) × (objs ≡ acc ++ rest) × All2 (FromFile ns) files rest
  unfolding generate_each
  generate_each-FromFile ns [] acc objs h = ([], sym (ok_inj h) ∙ sym (append-nil acc), tt)
  generate_each-FromFile ns (file ∷ files) acc objs h =
      let (obj, single, h1) =
        >>=-ok (generate_single_plugin_resource_obj P w (plugin_dir <> ("/" <> file)) ns) _ h in
      let (rest, same, all) = generate_each-FromFile ns files (acc ++ obj ∷ []) objs h1 in
      (
        obj ∷ rest,
        same ∙ append_assoc acc (obj ∷ []) rest,
        (single-FromFile ns file obj single, all),
      )

  FromFile-generate_each :
      (ns : String) (files : List String) (acc rest : List (Object P.Rest))
      → All2 (FromFile ns) files rest
      → generate_each P w ns files acc ≡ ok (acc ++ rest)
  unfolding generate_each
  FromFile-generate_each ns [] acc [] all = ap ok (sym (append-nil acc))
  FromFile-generate_each ns [] acc (obj ∷ rest) all = absurd all
  FromFile-generate_each ns (file ∷ files) acc [] all = absurd all
  FromFile-generate_each ns (file ∷ files) acc (obj ∷ rest) all =
      rw (FromFile-single ns file obj all.0) (
        FromFile-generate_each ns files (acc ++ obj ∷ []) rest all.1
        ∙ ap ok (append_assoc acc (obj ∷ []) rest))

  -- The plugin's objects, by the directory and the environment.
  abbrev pub Loads : List (Object P.Rest) → Type 0
  Loads objs =
      (files : List String) × (ns : String) × (P.read_dir "/plugin" w ≡ found files)
      × (P.lookup_env "CONTROLLER_NS" w ≡ some ns)
      × All2 (FromFile ns) files objs

  generate_in-Loads :
      (files : List String) (env : Option String) (objs : List (Object P.Rest))
      → P.read_dir "/plugin" w ≡ found files
      → P.lookup_env "CONTROLLER_NS" w ≡ env
      → generate_in P w env files ≡ ok objs
      → Loads objs
  unfolding generate_in
  generate_in-Loads files none objs dir env h = cc
  generate_in-Loads files (some ns) objs dir env h =
      let (rest, same, all) = generate_each-FromFile ns files [] objs h in
      (files, ns, dir, env, rw same all)

  -- The objects are made if and only if the directory /plugin can be read, CONTROLLER_NS is set,
  -- and each file of the directory can be read and decoded; there is one object for each file, in
  -- the order of the files, and it is the decoded one in the namespace CONTROLLER_NS.
  pub generate_plugin_resources_objs-Loads :
      (objs : List (Object P.Rest)) → (generate_plugin_resources_objs P w ≡ ok objs) ↔ Loads objs
  unfolding generate_plugin_resources_objs generate_in
  generate_plugin_resources_objs-Loads objs = (
    (λ h.
        let (files, dir, h1) = >>=-ok (from_answer (P.read_dir plugin_dir w)) _ h in
        generate_in-Loads files (P.lookup_env controller_namespace_env_var w) objs
          (from_answer-ok _ files dir) refl h1),
    (λ (files, ns, dir, env, all). rw (dir, env) (FromFile-generate_each ns files [] objs all)),
  )
