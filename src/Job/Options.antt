-- ===== src/Job/Options.antt =====
-- The `With…` options of internal/controller/cnf-cert-job/cnfcertjob.go. All but `with_config_map`,
-- `with_pod_name`, `with_namespace` and `with_owner_reference` look for a container of the pod.
use cnf_certsuite_operator.Prelude.{
  ℕ, zero, suc, String, ◌<>◌, Option, none, some, List, [], ◌∷◌, ◌++◌, true,
}
use cnf_certsuite_operator.Go.{ok, err, panic, errorf, nil_dereference}
use cnf_certsuite_operator.Definitions.{cnf_preflight_config_folder}
use cnf_certsuite_operator.Pod.{Pod, Container, config_map, secret}
use cnf_certsuite_operator.Job.{PodOption, get_side_car_app_container, get_cnf_cert_suite_container}

-- A write through the pointer to the container at an index.
unfoldable pub modify_at : ℕ → (Container → Container) → List Container → List Container
modify_at i f [] = []
modify_at zero f (c ∷ cs) = f c ∷ cs
modify_at (suc i) f (c ∷ cs) = c ∷ modify_at i f cs

unfoldable pub modify_container : ℕ → (Container → Container) → Pod → Pod
unfolding modify_at
modify_container i f p = record p { containers = modify_at i f p.containers }

unfoldable pub with_pod_name : String → PodOption
with_pod_name pod_name p = ok (record p { name = pod_name })

unfoldable pub with_namespace : String → PodOption
with_namespace namespace p = ok (record p { namespace = namespace })

-- The test for the sidecar, and what is written to it.
unfoldable pub on_side_car : (Container → Container) → PodOption
unfolding get_side_car_app_container modify_container
on_side_car f p = elim (get_side_car_app_container p) [
  | none ↦ err (errorf ("side Car app Container is not found in pod " <> p.name))
  | some i ↦ ok (modify_container i f p)
]

-- The test for the suite's container, and what is written to it.
unfoldable pub on_cnf_cert_suite : (Container → Container) → PodOption
unfolding get_cnf_cert_suite_container modify_container
on_cnf_cert_suite f p = elim (get_cnf_cert_suite_container p) [
  | none ↦ err (errorf ("cnf cert suite Container is not found in pod " <> p.name))
  | some i ↦ ok (modify_container i f p)
]

unfoldable pub append_args : List String → Container → Container
append_args new_args c = record c { args = c.args ++ new_args }

unfoldable pub with_cert_suite_config_run_name : String → PodOption
unfolding on_side_car
with_cert_suite_config_run_name run_name = on_side_car λ c. record c {
  env = c.env ++ record { name = "RUN_CR_NAME"; value = run_name; field_path = none } ∷ [];
}

unfoldable pub with_labels_filter : String → PodOption
unfolding on_cnf_cert_suite append_args
with_labels_filter labels_filter = on_cnf_cert_suite (append_args ("-l" ∷ labels_filter ∷ []))

unfoldable pub with_log_level : String → PodOption
unfolding on_cnf_cert_suite append_args
with_log_level log_level = on_cnf_cert_suite (append_args ("--log-level" ∷ log_level ∷ []))

unfoldable pub with_time_out : String → PodOption
unfolding on_cnf_cert_suite append_args
with_time_out timeout = on_cnf_cert_suite (append_args ("--timeout" ∷ timeout ∷ []))

unfoldable pub with_config_map : String → PodOption
with_config_map config_map_name p = ok (record p {
  volumes =
      p.volumes ++ record { name = "certsuite-config"; source = config_map config_map_name } ∷ [];
})

-- The secret's volume, and its mount in the suite's container.
abbrev pub add_secret_volume : String → Pod → Pod
add_secret_volume secret_name p = record p {
  volumes =
      p.volumes
      ++ record { name = "certsuite-preflight-dockerconfig"; source = secret secret_name } ∷ [];
}

abbrev pub add_secret_mount : Container → Container
add_secret_mount c = record c {
  volume_mounts =
      c.volume_mounts
      ++ record {
        name = "certsuite-preflight-dockerconfig";
        read_only = true;
        mount_path = cnf_preflight_config_folder;
      }
        ∷ [];
}

-- A nil secret name changes nothing. The pointer to the container is not tested before it is used.
unfoldable pub with_preflight_secret : Option String → PodOption
unfolding get_cnf_cert_suite_container modify_container
with_preflight_secret none p = ok p
with_preflight_secret (some secret_name) p =
    let q = add_secret_volume secret_name p in
    elim (get_cnf_cert_suite_container q) [
      | none ↦ panic nil_dereference
      | some i ↦ ok (modify_container i add_secret_mount q)
    ]

unfoldable pub with_side_car_app : String → PodOption
unfolding on_side_car
with_side_car_app side_car_app_image = on_side_car (λ c. record c { image = side_car_app_image })

unfoldable pub with_enable_data_collection : String → PodOption
unfolding on_cnf_cert_suite append_args
with_enable_data_collection enable_data_collection =
    on_cnf_cert_suite (append_args ("--enable-data-collection" ∷ enable_data_collection ∷ []))

unfoldable pub with_owner_reference : String → String → String → String → PodOption
with_owner_reference owner_uid owner_name owner_kind owner_api_version p = ok (record p {
  owner_references =
      record {
        api_version = owner_api_version;
        kind = owner_kind;
        name = owner_name;
        uid = owner_uid;
      }
      ∷ [];
})

-- The options of this file.
pub data IsJobOption : PodOption → Type 0 where
  pod_name : (n : String) → IsJobOption (with_pod_name n)
  namespace : (n : String) → IsJobOption (with_namespace n)
  run_name : (n : String) → IsJobOption (with_cert_suite_config_run_name n)
  labels_filter : (l : String) → IsJobOption (with_labels_filter l)
  log_level : (l : String) → IsJobOption (with_log_level l)
  time_out : (t : String) → IsJobOption (with_time_out t)
  config_map_name : (n : String) → IsJobOption (with_config_map n)
  preflight_secret : (s : Option String) → IsJobOption (with_preflight_secret s)
  side_car_app : (i : String) → IsJobOption (with_side_car_app i)
  enable_data_collection : (e : String) → IsJobOption (with_enable_data_collection e)
  owner_reference :
      (uid name kind api_version : String)
      → IsJobOption (with_owner_reference uid name kind api_version)
