-- ===== src/Sidecar/Process.antt =====
-- certsuite-sidecar/app/main.go: `main`, which builds the client and hands it to `handleClaimFile`. The
-- calls of the client libraries are parameters; each may fail.
use cnf_certsuite_operator.Prelude.{ℕ, ◌*◌, String, ◌<>◌, Option, none, some}
use cnf_certsuite_operator.Go.{Error, error_text}
use cnf_certsuite_operator.Duration.{second}
use cnf_certsuite_operator.Controller.Cluster.{Answer, found, failure}
use cnf_certsuite_operator.Sidecar.{SidecarHost, Ending, fatal, handle_claim_file}

abbrev pub default_timeout : ℕ
default_timeout = 10 * second

-- The calls of the client that `new_client` makes are those of `H`.
pub record ClientLibrary (H : SidecarHost) : Type 1 where
  pub Config : Type 0
  -- AddToScheme of client-go, and of the program's own resources
  pub add_client_go : H.World → Option Error × H.World
  pub add_certsuite : H.World → Option Error × H.World
  -- os.Stat
  pub stat : String → H.World → Option Error × H.World
  -- clientcmd.BuildConfigFromFlags
  pub build_config : String → H.World → Answer Config × H.World
  pub with_timeout : ℕ → Config → Config
  pub new_client : Config → H.World → Option Error × H.World

module _ (H : SidecarHost) (L : ClientLibrary H) where
  open H use {World}

  unfoldable pub after_client : ℕ → Option Error × World → Ending × World
  after_client fuel (some e, w) = (fatal ("Failed to get k8s client: " <> error_text e), w)
  after_client fuel (none, w) = handle_claim_file H fuel w

  unfoldable pub after_config : ℕ → Answer L.Config × World → Ending × World
  unfolding after_client
  after_config fuel (failure e, w) =
      (fatal ("Failed to get incluster rest config: " <> error_text e), w)
  after_config fuel (found config, w) =
      after_client fuel (L.new_client (L.with_timeout default_timeout config) w)

  abbrev pub kube_config_file : String
  kube_config_file = H.join (H.join (H.getenv "HOME") ".kube") "config"

  -- A file that cannot be seen stands for the configuration inside the cluster, the empty name.
  unfoldable pub config_file_of : Option Error → String
  config_file_of (some e) = ""
  config_file_of none = kube_config_file

  unfoldable pub build_client : ℕ → Option Error × World → Ending × World
  unfolding after_config config_file_of
  build_client fuel (e, w) = after_config fuel (L.build_config (config_file_of e) w)

  unfoldable pub after_certsuite : ℕ → Option Error × World → Ending × World
  unfolding build_client
  after_certsuite fuel (some e, w) =
      (fatal ("failed to add cnfcertificationsv1alpha1 to scheme: " <> error_text e), w)
  after_certsuite fuel (none, w) = build_client fuel (L.stat kube_config_file w)

  unfoldable pub after_client_go : ℕ → Option Error × World → Ending × World
  unfolding after_certsuite
  after_client_go fuel (some e, w) = (fatal ("failed to add to scheme: " <> error_text e), w)
  after_client_go fuel (none, w) = after_certsuite fuel (L.add_certsuite w)

  unfoldable pub main : ℕ → World → Ending × World
  unfolding after_client_go
  main fuel w = after_client_go fuel (L.add_client_go w)
