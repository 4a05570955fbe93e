-- ===== src/Report/Targets.antt =====
-- The CNF targets of certsuite-sidecar/app/cnf-cert-suite-report/cnfcertsuitereport.go. A
-- function that appends to a field through a pointer returns the record with the new field.
use cnf_certsuite_operator.Prelude.{String, List, [], ◌∷◌, ◌++◌}
use cnf_certsuite_operator.Prelude.Dict.{Dict}
use cnf_certsuite_operator.Pod.{Pod, Container}
use cnf_certsuite_operator.Claim.{Value, Metadata, Resource, Schema}
use cnf_certsuite_operator.Api.{CnfTargets, CnfResource}

unfoldable pub add_namespaces_to_cnf_spec_field : CnfTargets → List String → CnfTargets
add_namespaces_to_cnf_spec_field cnf namespaces = record cnf {
  namespaces = cnf.namespaces ++ namespaces;
}

-- The inner loop over a pod's containers.
unfoldable pub append_container_names : List String → List Container → List String
append_container_names containers [] = containers
append_container_names containers (c ∷ cs) = append_container_names (containers ++ c.name ∷ []) cs

unfoldable pub add_pods_to_cnf_spec_field : CnfTargets → List Pod → CnfTargets
unfolding append_container_names
add_pods_to_cnf_spec_field cnf [] = cnf
add_pods_to_cnf_spec_field cnf (pod ∷ pods) =
    add_pods_to_cnf_spec_field
      (record cnf {
        pods =
            cnf.pods
            ++ record {
              name = pod.name;
              namespace = pod.namespace;
              containers = append_container_names [] pod.containers;
            }
              ∷ [];
      })
      pods

unfoldable pub add_operators_to_cnf_spec_field : CnfTargets → List Metadata → CnfTargets
add_operators_to_cnf_spec_field cnf [] = cnf
add_operators_to_cnf_spec_field cnf (csv ∷ csvs) =
    add_operators_to_cnf_spec_field
      (record cnf { csvs = cnf.csvs ++ record { name = csv.name; namespace = csv.namespace } ∷ [] })
      csvs

unfoldable pub add_crds_to_cnf_spec_field : CnfTargets → List Resource → CnfTargets
add_crds_to_cnf_spec_field cnf [] = cnf
add_crds_to_cnf_spec_field cnf (crd ∷ crds) =
    add_crds_to_cnf_spec_field (record cnf { crds = cnf.crds ++ crd.metadata.name ∷ [] }) crds

unfoldable pub add_nodes_to_cnf_spec_field : CnfTargets → Dict String Value → CnfTargets
add_nodes_to_cnf_spec_field cnf [] = cnf
add_nodes_to_cnf_spec_field cnf ((node_name, v) ∷ nodes) =
    add_nodes_to_cnf_spec_field (record cnf { nodes = cnf.nodes ++ node_name ∷ [] }) nodes

-- The field that the pointer names is given and returned.
unfoldable pub add_resources_to_cnf_spec_field : List CnfResource → List Resource → List CnfResource
add_resources_to_cnf_spec_field field [] = field
add_resources_to_cnf_spec_field field (r ∷ resources) =
    add_resources_to_cnf_spec_field
      (field ++ record { name = r.metadata.name; namespace = r.metadata.namespace } ∷ []) resources

abbrev pub no_targets : CnfTargets
no_targets = record {
  namespaces = [];
  nodes = [];
  pods = [];
  deployments = [];
  stateful_sets = [];
  csvs = [];
  crds = [];
  services = [];
  helm_chart_releases = [];
}

unfoldable pub get_cnf_targets_from_claim : Schema → CnfTargets
unfolding add_namespaces_to_cnf_spec_field add_pods_to_cnf_spec_field
    add_operators_to_cnf_spec_field add_crds_to_cnf_spec_field add_nodes_to_cnf_spec_field
    add_resources_to_cnf_spec_field
get_cnf_targets_from_claim claim =
    let c1 = add_namespaces_to_cnf_spec_field no_targets claim.configurations.name_spaces in
    let c2 = add_nodes_to_cnf_spec_field c1 claim.nodes.node_summary in
    let c3 = add_pods_to_cnf_spec_field c2 claim.configurations.pods in
    let c4 = record c3 {
      deployments = add_resources_to_cnf_spec_field c3.deployments claim.configurations.deployments;
    } in
    let c5 = record c4 {
      stateful_sets =
          add_resources_to_cnf_spec_field c4.stateful_sets claim.configurations.stateful_sets;
    } in
    let c6 = add_operators_to_cnf_spec_field c5 claim.configurations.csvs in
    let c7 = add_crds_to_cnf_spec_field c6 claim.configurations.crds in
    let c8 = record c7 {
      services = add_resources_to_cnf_spec_field c7.services claim.configurations.services;
    } in
    record c8 {
      helm_chart_releases =
          add_resources_to_cnf_spec_field c8.helm_chart_releases
            claim.configurations.helm_chart_releases;
    }
