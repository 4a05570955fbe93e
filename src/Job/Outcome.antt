-- ===== src/Job/Outcome.antt =====
-- When the options of cnfcertjob.go succeed: a pod keeps its two containers through every option,
-- so that `New` returns a pod for any list of them.
use cnf_certsuite_operator.Prelude.{
  ℕ, zero, suc, String, ◌≡◌, refl, none, some, List, [], ◌∷◌, All, arith,
}
use cnf_certsuite_operator.Go.{ok}
use cnf_certsuite_operator.Pod.{Pod, Container}
use cnf_certsuite_operator.Job.{
  PodOption, apply_options, new, new_initial_job_pod, container_index, get_side_car_app_container,
  get_cnf_cert_suite_container,
}
use cnf_certsuite_operator.Job.Options.{
  modify_at, modify_container, on_side_car, on_cnf_cert_suite, append_args, add_secret_volume,
  add_secret_mount, with_pod_name, with_namespace, with_cert_suite_config_run_name,
  with_labels_filter, with_log_level, with_time_out, with_config_map, with_preflight_secret,
  with_side_car_app, with_enable_data_collection, with_owner_reference, IsJobOption, pod_name,
  namespace, run_name, labels_filter, log_level, time_out, config_map_name, preflight_secret,
  side_car_app, enable_data_collection, owner_reference,
}

-- The pod has the sidecar's and the suite's container.
pub record IsComplete (p : Pod) : Type 0 where
  pub side_car : (i : ℕ) × (get_side_car_app_container p ≡ some i)
  pub cert_suite : (i : ℕ) × (get_cnf_cert_suite_container p ≡ some i)

-- The option returns a pod with both containers, whatever pod with both it is given.
abbrev pub IsTotal : PodOption → Type 0
IsTotal o = (p : Pod) → IsComplete p → (q : Pod) × (o p ≡ ok q) × IsComplete q

-- A write that leaves the name alone leaves every search by name alone.
container_index-modify_at :
    (name : String) (i : ℕ) (f : Container → Container) (cs : List Container)
    → ((c : Container) → (f c).name ≡ c.name)
    → container_index name (modify_at i f cs) ≡ container_index name cs
unfolding container_index modify_at
container_index-modify_at name i f [] h = refl
container_index-modify_at name zero f (c ∷ cs) h = ground (arith, h c)
container_index-modify_at name (suc i) f (c ∷ cs) h =
    ground (arith, container_index-modify_at name i f cs h)

modify_container-IsComplete :
    (i : ℕ) (f : Container → Container) (p : Pod)
    → ((c : Container) → (f c).name ≡ c.name)
    → IsComplete p
    → IsComplete (modify_container i f p)
unfolding modify_container get_side_car_app_container get_cnf_cert_suite_container
modify_container-IsComplete i f p h c = record {
  side_car = (c.side_car.0, rw (container_index-modify_at _ i f p.containers h) c.side_car.1);
  cert_suite = (c.cert_suite.0, rw (container_index-modify_at _ i f p.containers h) c.cert_suite.1);
}

on_side_car-IsTotal :
    (f : Container → Container) → ((c : Container) → (f c).name ≡ c.name) → IsTotal (on_side_car f)
unfolding on_side_car
on_side_car-IsTotal f h p c = (
  modify_container c.side_car.0 f p,
  ground arith,
  modify_container-IsComplete c.side_car.0 f p h c,
)

on_cnf_cert_suite-IsTotal :
    (f : Container → Container)
    → ((c : Container) → (f c).name ≡ c.name)
    → IsTotal (on_cnf_cert_suite f)
unfolding on_cnf_cert_suite
on_cnf_cert_suite-IsTotal f h p c = (
  modify_container c.cert_suite.0 f p,
  ground arith,
  modify_container-IsComplete c.cert_suite.0 f p h c,
)

-- An option that writes to no container.
same_containers : {p q : Pod} → q.containers ≡ p.containers → IsComplete p → IsComplete q
unfolding get_side_car_app_container get_cnf_cert_suite_container
same_containers e c = record {
  side_car = (c.side_car.0, rw e c.side_car.1);
  cert_suite = (c.cert_suite.0, rw e c.cert_suite.1);
}

preflight-IsTotal : (s : String) → IsTotal (with_preflight_secret (some s))
unfolding with_preflight_secret
preflight-IsTotal s p c = (
  modify_container c.cert_suite.0 add_secret_mount (add_secret_volume s p),
  ground arith,
  modify_container-IsComplete c.cert_suite.0 add_secret_mount (add_secret_volume s p) (λ c. refl)
      (same_containers refl c),
)

job_option-IsTotal : {o : PodOption} → IsJobOption o → IsTotal o
unfolding with_pod_name with_namespace with_cert_suite_config_run_name with_labels_filter
    with_log_level with_time_out with_config_map with_side_car_app with_enable_data_collection
    with_owner_reference append_args with_preflight_secret
job_option-IsTotal (pod_name n) p c = (record p { name = n }, refl, same_containers refl c)
job_option-IsTotal (namespace n) p c = (record p { namespace = n }, refl, same_containers refl c)
job_option-IsTotal (run_name n) p c = on_side_car-IsTotal _ (λ d. refl) p c
job_option-IsTotal (labels_filter l) p c = on_cnf_cert_suite-IsTotal _ (λ d. refl) p c
job_option-IsTotal (log_level l) p c = on_cnf_cert_suite-IsTotal _ (λ d. refl) p c
job_option-IsTotal (time_out t) p c = on_cnf_cert_suite-IsTotal _ (λ d. refl) p c
job_option-IsTotal (config_map_name n) p c = (_, refl, same_containers refl c)
job_option-IsTotal (preflight_secret none) p c = (p, refl, c)
job_option-IsTotal (preflight_secret (some s)) p c = preflight-IsTotal s p c
job_option-IsTotal (side_car_app i) p c = on_side_car-IsTotal _ (λ d. refl) p c
job_option-IsTotal (enable_data_collection e) p c = on_cnf_cert_suite-IsTotal _ (λ d. refl) p c
job_option-IsTotal (owner_reference u n k a) p c = (_, refl, same_containers refl c)

apply_options-total :
    (options : List PodOption) (p : Pod)
    → All IsJobOption options
    → IsComplete p
    → (q : Pod) × (apply_options options p ≡ ok q) × IsComplete q
unfolding apply_options
apply_options-total [] p h c = (p, refl, c)
apply_options-total (o ∷ options) p h c =
    let (q, e, d) = job_option-IsTotal h.0 p c in
    let (r, e', d') = apply_options-total options q h.1 d in (r, rw e e', d')

initial-IsComplete : IsComplete new_initial_job_pod
unfolding new_initial_job_pod get_side_car_app_container get_cnf_cert_suite_container
initial-IsComplete = record { side_car = (0, refl); cert_suite = (1, refl) }

-- `New` returns a pod, with no error and no panic, for every list of options of the package,
-- repeated or left out as may be, and the pod has both containers.
pub new-total :
    (options : List PodOption)
    → All IsJobOption options
    → (p : Pod) × (new options ≡ ok p) × IsComplete p
unfolding new
new-total options h = apply_options-total options new_initial_job_pod h initial-IsComplete
