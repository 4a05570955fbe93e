-- ===== src/Controller/RunPod/Launch.antt =====
-- What the kubelet and the suite need of the pod that the reconciler builds: mounts that resolve,
-- mount paths that do not clash, and a command line that reads back as the run's specification.
use cnf_certsuite_operator.Prelude.{
  String, ◌≡◌, refl, Bool, true, false, not, ◌&&◌, ◌||◌, Option, none, some, List, [], ◌∷◌, str_eq,
  if◌then◌else◌,
}
use cnf_certsuite_operator.Prelude.Dict.{Dict}
use cnf_certsuite_operator.Go.{ok}
use cnf_certsuite_operator.Definitions.{
  cnf_cert_suite_sidecar_container_name, cnf_cert_suite_container_name,
  cnf_cert_suite_results_folder, cnf_cert_suite_config_file_path, preflight_docker_config_file_path,
  side_car_results_folder_env_var,
}
use cnf_certsuite_operator.Pod.{
  Pod, Container, EnvVar, VolumeMount, Volume, empty_dir, config_map, secret,
}
use cnf_certsuite_operator.Api.{CertsuiteRun}
use cnf_certsuite_operator.Job.{new}
use cnf_certsuite_operator.Job.Options.{
  with_pod_name, with_namespace, with_cert_suite_config_run_name, with_labels_filter,
  with_log_level, with_time_out, with_config_map, with_preflight_secret, with_side_car_app,
  with_enable_data_collection, with_owner_reference,
}
use cnf_certsuite_operator.Controller.RunPod.{format_bool, job_options}

has_volume : String → List Volume → Bool
has_volume n [] = false
has_volume n (v ∷ vs) = str_eq v.name n || has_volume n vs

mounts_in : List Volume → List VolumeMount → Bool
unfolding has_volume
mounts_in vs [] = true
mounts_in vs (m ∷ ms) = has_volume m.name vs && mounts_in vs ms

has_path : String → List VolumeMount → Bool
has_path path [] = false
has_path path (m ∷ ms) = str_eq m.mount_path path || has_path path ms

paths_differ : List VolumeMount → Bool
unfolding has_path
paths_differ [] = true
paths_differ (m ∷ ms) = not (has_path m.mount_path ms) && paths_differ ms

-- Every mount of every container names a volume of the pod, and no container mounts twice at a
-- path.
containers_mount : List Volume → List Container → Bool
unfolding mounts_in paths_differ
containers_mount vs [] = true
containers_mount vs (c ∷ cs) =
    mounts_in vs c.volume_mounts && paths_differ c.volume_mounts && containers_mount vs cs

pub is_mountable : Pod → Bool
unfolding containers_mount
is_mountable p = containers_mount p.volumes p.containers

-- A command line of flags, each with its value.
pub read_flags : List String → Option (Dict String String)
read_flags [] = some []
read_flags (flag ∷ []) = none
read_flags (flag ∷ val ∷ rest) = elim (read_flags rest) [
  | none ↦ none
  | some flags ↦ some ((flag, val) ∷ flags)
]

find_container : String → List Container → Option Container
find_container n [] = none
find_container n (c ∷ cs) = elim (str_eq c.name n) [ true ↦ some c | false ↦ find_container n cs ]

unfoldable pub suite_container : Pod → Option Container
unfolding find_container
suite_container p = find_container cnf_cert_suite_container_name p.containers

pub side_car_container : Pod → Option Container
unfolding find_container
side_car_container p = find_container cnf_cert_suite_sidecar_container_name p.containers

-- The command line of the suite's container, after the verb `run`.
unfoldable pub suite_flags : Pod → Option (Dict String String)
unfolding suite_container read_flags
suite_flags p = elim (suite_container p) [
  | none ↦ none
  | some c ↦ elim c.args [ [] ↦ none | verb ∷ rest ↦ read_flags rest ]
]

-- The flags that stand for a run's specification.
abbrev pub flags_of : CertsuiteRun → Dict String String
flags_of run_cr =
    ("--output-dir", cnf_cert_suite_results_folder)
    ∷ ("--config-file", cnf_cert_suite_config_file_path)
    ∷ ("--preflight-dockerconfig", preflight_docker_config_file_path)
    ∷ ("--intrusive", "false")
    ∷ ("-l", run_cr.spec.labels_filter)
    ∷ ("--log-level", run_cr.spec.log_level)
    ∷ ("--timeout", run_cr.spec.time_out)
    ∷ ("--enable-data-collection", format_bool run_cr.spec.enable_data_collection)
    ∷ []

-- The value of an environment variable that is written in the pod.
abbrev env_value : String → List EnvVar → Option String
env_value n [] = none
env_value n (v ∷ vs) = if str_eq v.name n then some v.value else env_value n vs

-- The volumes that a run asks for, behind the output folder.
abbrev pub volumes_of : CertsuiteRun → List Volume
volumes_of run_cr =
    record { name = "certsuite-output"; source = empty_dir }
    ∷ record { name = "certsuite-config"; source = config_map run_cr.spec.config_map_name }
    ∷ elim run_cr.spec.preflight_secret_name [
      | none ↦ []
      | some n ↦ record { name = "certsuite-preflight-dockerconfig"; source = secret n } ∷ []
    ]

-- The pod runs what the resource asks for.
pub record Launches (image pod_name namespace : String) (run_cr : CertsuiteRun) (p : Pod)
    : Type 0 where
  pub named : (p.name ≡ pod_name) × (p.namespace ≡ namespace)
  pub owned :
      p.owner_references
      ≡ record {
        api_version = run_cr.api_version;
        kind = run_cr.kind;
        name = run_cr.name;
        uid = run_cr.uid;
      }
        ∷ []
  pub mountable : is_mountable p ≡ true
  pub volumes : p.volumes ≡ volumes_of run_cr
  pub flags : suite_flags p ≡ some (flags_of run_cr)
  pub reports :
      (c : Container) × (side_car_container p ≡ some c)
      × (c.image ≡ image)
      × (env_value "RUN_CR_NAME" c.env ≡ some run_cr.name)
      × (env_value side_car_results_folder_env_var c.env ≡ some cnf_cert_suite_results_folder)

abbrev with_secret : Option String → CertsuiteRun → CertsuiteRun
with_secret s run_cr = record run_cr { spec = record run_cr.spec { preflight_secret_name = s } }

Launches-with_secret :
    (image pod_name namespace : String) (run_cr : CertsuiteRun) (s : Option String)
    → (p : Pod) × (new (job_options image pod_name namespace (with_secret s run_cr)) ≡ ok p)
      × Launches image pod_name namespace (with_secret s run_cr) p
unfolding new job_options with_pod_name with_namespace with_cert_suite_config_run_name
    with_labels_filter with_log_level with_time_out with_config_map with_preflight_secret
    with_side_car_app with_enable_data_collection with_owner_reference is_mountable suite_flags
    side_car_container
Launches-with_secret image pod_name namespace run_cr none = (
  _,
  refl,
  record {
    named = (refl, refl);
    owned = refl;
    mountable = refl;
    volumes = refl;
    flags = refl;
    reports = (_, refl, refl, refl, refl);
  },
)
Launches-with_secret image pod_name namespace run_cr (some n) = (
  _,
  refl,
  record {
    named = (refl, refl);
    owned = refl;
    mountable = refl;
    volumes = refl;
    flags = refl;
    reports = (_, refl, refl, refl, refl);
  },
)

-- For every resource the reconciler's options build a pod, with no error and no panic. The pod
-- has the name and namespace given and the resource as its one owner; every mount of a container
-- names a volume of the pod and no two mounts of a container share a path; the volumes are the
-- output folder, the named config map and, exactly if a preflight secret is named, that secret;
-- the suite's command line after `run` reads back, flag by flag, as the specification's values,
-- whatever these are; and the sidecar has the image given and is told the resource's name and the
-- results' folder.
pub new-job_options :
    (image pod_name namespace : String) (run_cr : CertsuiteRun)
    → (p : Pod) × (new (job_options image pod_name namespace run_cr) ≡ ok p)
      × Launches image pod_name namespace run_cr p
new-job_options image pod_name namespace run_cr =
    Launches-with_secret image pod_name namespace run_cr run_cr.spec.preflight_secret_name
