-- ===== src/Report/Exact.antt =====
-- The CNF targets of a report
-- (certsuite-sidecar/app/cnf-cert-suite-report/cnfcertsuitereport.go), field by field.
use mathlib.Core.List.{append-nil, append_assoc}
use cnf_certsuite_operator.Prelude.{String, ◌≡◌, refl, sym, ap, ◌∙◌, List, [], ◌∷◌, ◌++◌, map}
use cnf_certsuite_operator.Prelude.Dict.{Dict}
use cnf_certsuite_operator.Pod.{Pod, Container}
use cnf_certsuite_operator.Claim.{Value, Metadata, Resource, Schema}
use cnf_certsuite_operator.Api.{CnfTargets, CnfPod, CnfResource}
use cnf_certsuite_operator.Report.Targets.{
  add_namespaces_to_cnf_spec_field, append_container_names, add_pods_to_cnf_spec_field,
  add_operators_to_cnf_spec_field, add_crds_to_cnf_spec_field, add_nodes_to_cnf_spec_field,
  add_resources_to_cnf_spec_field, get_cnf_targets_from_claim,
}

abbrev pub pod_target : Pod → CnfPod
pod_target p = record {
  name = p.name;
  namespace = p.namespace;
  containers = map (λ (c : Container). c.name) p.containers;
}

abbrev pub operator_target : Metadata → CnfResource
operator_target m = record { name = m.name; namespace = m.namespace }

abbrev pub resource_target : Resource → CnfResource
resource_target r = record { name = r.metadata.name; namespace = r.metadata.namespace }

append_container_names-map :
    (acc : List String) (cs : List Container)
    → append_container_names acc cs ≡ acc ++ map (λ (c : Container). c.name) cs
unfolding append_container_names
append_container_names-map acc [] = sym (append-nil acc)
append_container_names-map acc (c ∷ cs) =
    append_container_names-map (acc ++ c.name ∷ []) cs ∙ append_assoc acc (c.name ∷ []) _

add_pods-map :
    (cnf : CnfTargets) (pods : List Pod)
    → add_pods_to_cnf_spec_field cnf pods ≡ record cnf { pods = cnf.pods ++ map pod_target pods }
unfolding add_pods_to_cnf_spec_field
add_pods-map cnf [] = ap (λ l. record cnf { pods = l }) (sym (append-nil cnf.pods))
add_pods-map cnf (p ∷ pods) =
    add_pods-map _ pods
    ∙ ap (λ l. record cnf { pods = l }) (append_assoc cnf.pods (_ ∷ []) (map pod_target pods))
    ∙ ap
        (λ names. record cnf {
          pods =
              cnf.pods
              ++ record { name = p.name; namespace = p.namespace; containers = names }
                ∷ map pod_target pods;
        })
        (append_container_names-map [] p.containers)

add_operators-map :
    (cnf : CnfTargets) (csvs : List Metadata)
    → add_operators_to_cnf_spec_field cnf csvs
      ≡ record cnf { csvs = cnf.csvs ++ map operator_target csvs }
unfolding add_operators_to_cnf_spec_field
add_operators-map cnf [] = ap (λ l. record cnf { csvs = l }) (sym (append-nil cnf.csvs))
add_operators-map cnf (m ∷ csvs) =
    add_operators-map _ csvs
    ∙ ap (λ l. record cnf { csvs = l })
        (append_assoc cnf.csvs (operator_target m ∷ []) (map operator_target csvs))

add_crds-map :
    (cnf : CnfTargets) (crds : List Resource)
    → add_crds_to_cnf_spec_field cnf crds
      ≡ record cnf { crds = cnf.crds ++ map (λ (r : Resource). r.metadata.name) crds }
unfolding add_crds_to_cnf_spec_field
add_crds-map cnf [] = ap (λ l. record cnf { crds = l }) (sym (append-nil cnf.crds))
add_crds-map cnf (r ∷ crds) =
    add_crds-map _ crds
    ∙ ap (λ l. record cnf { crds = l }) (append_assoc cnf.crds (r.metadata.name ∷ []) _)

add_nodes-map :
    (cnf : CnfTargets) (nodes : Dict String Value)
    → add_nodes_to_cnf_spec_field cnf nodes
      ≡ record cnf { nodes = cnf.nodes ++ map (λ (n : String × Value). n.0) nodes }
unfolding add_nodes_to_cnf_spec_field
add_nodes-map cnf [] = ap (λ l. record cnf { nodes = l }) (sym (append-nil cnf.nodes))
add_nodes-map cnf ((name, v) ∷ nodes) =
    add_nodes-map _ nodes
    ∙ ap (λ l. record cnf { nodes = l }) (append_assoc cnf.nodes (name ∷ []) _)

add_resources-map :
    (field : List CnfResource) (rs : List Resource)
    → add_resources_to_cnf_spec_field field rs ≡ field ++ map resource_target rs
unfolding add_resources_to_cnf_spec_field
add_resources-map field [] = sym (append-nil field)
add_resources-map field (r ∷ rs) =
    add_resources-map _ rs ∙ append_assoc field (resource_target r ∷ []) (map resource_target rs)

-- The targets of a claim list, each in the claim's order, its name spaces, the names of its
-- nodes, its pods with the names of their containers, its operators and the names of its custom
-- resource definitions, and the deployments, stateful sets, services and chart releases with
-- their name spaces.
pub get_cnf_targets_from_claim-map :
    (claim : Schema)
    → get_cnf_targets_from_claim claim ≡ record {
      namespaces = claim.configurations.name_spaces;
      nodes = map (λ (n : String × Value). n.0) claim.nodes.node_summary;
      pods = map pod_target claim.configurations.pods;
      deployments = map resource_target claim.configurations.deployments;
      stateful_sets = map resource_target claim.configurations.stateful_sets;
      csvs = map operator_target claim.configurations.csvs;
      crds = map (λ (r : Resource). r.metadata.name) claim.configurations.crds;
      services = map resource_target claim.configurations.services;
      helm_chart_releases = map resource_target claim.configurations.helm_chart_releases;
    }
unfolding get_cnf_targets_from_claim add_namespaces_to_cnf_spec_field
get_cnf_targets_from_claim-map claim =
    simp (add_nodes-map, add_pods-map, add_operators-map, add_crds-map, add_resources-map) refl
