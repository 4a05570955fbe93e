-- ===== src/ConsolePlugin/Platform.antt =====
-- What internal/controller/certsuiteconsoleplugin_controller.go uses of Kubernetes, of the file
-- system and of the environment. An object is what the decoder of k8s.io/apimachinery makes of a
-- file.
use cnf_certsuite_operator.Prelude.{ℕ, String, Option, List}
use cnf_certsuite_operator.Go.{Error}
use cnf_certsuite_operator.Api.{NamespacedName, CertsuiteConsolePlugin}
use cnf_certsuite_operator.Controller.Cluster.{Answer}

-- client.Object, in the parts that the reconciler reads, and the rest.
pub record Object (Rest : Type 0) : Type 0 where
  pub kind : String
  pub name : String
  pub namespace : String
  pub rest : Rest

pub record Platform : Type 1 where
  pub World : Type 0
  pub Bytes : Type 0
  pub Rest : Type 0
  pub get_plugin : NamespacedName → World → Answer CertsuiteConsolePlugin × World
  pub create : Object Rest → World → Option Error × World
  pub delete : Object Rest → World → Option Error × World
  -- Status().Update writes the server's answer over the object.
  pub update_status : CertsuiteConsolePlugin → World → Answer CertsuiteConsolePlugin × World
  -- metav1.Now, in whole seconds, the precision in which it is sent
  pub now : World → ℕ
  -- os.ReadDir, os.ReadFile and os.LookupEnv
  pub read_dir : String → World → Answer (List String)
  pub read_file : String → World → Answer Bytes
  pub lookup_env : String → World → Option String
  -- The decoder, with `none` for a value that is no client.Object.
  pub decode : Bytes → Answer (Option (Object Rest))
  -- An object's kind in `%s`
  pub show_kind : Object Rest → String

-- The calls that reach the API server, in their order; the program does not read them.
pub data PluginCall (Rest : Type 0) : Type 0 where
  get_plugin : NamespacedName → PluginCall Rest
  create delete : Object Rest → PluginCall Rest
  update_status : CertsuiteConsolePlugin → PluginCall Rest
