-- ===== src/Claim.antt =====
-- certsuite-sidecar/app/claim/claim.go: the parts of the suite's claim file that the sidecar
-- reads. A map is the list of its entries in the order in which a `range` over it goes.
use cnf_certsuite_operator.Prelude.{String, List}
use cnf_certsuite_operator.Prelude.Dict.{Dict}
use cnf_certsuite_operator.Pod.{Pod}

-- `interface{}`, as encoding/json fills it: what is neither a string nor a list is told apart from
-- these only. The lists are declared in the block.
mutual
  pub data Value : Type 0 where
    str : String → Value
    list : Values → Value
    other : Value

  pub data Values : Type 0 where
    nil : Values
    cons : Value → Values → Values

pub record Metadata : Type 0 where
  pub name : String
  pub namespace : String

pub record Resource : Type 0 where
  pub metadata : Metadata

pub record TestSuiteConfiguration : Type 0 where
  pub name_spaces : List String
  pub pods : List Pod
  pub deployments : List Resource
  pub stateful_sets : List Resource
  pub csvs : List Metadata
  pub crds : List Resource
  pub services : List Resource
  pub helm_chart_releases : List Resource

pub record TestSuiteNodes : Type 0 where
  pub node_summary : Dict String Value

pub record CatalogInfo : Type 0 where
  pub description : String
  pub remediation : String

pub record TestCaseResult : Type 0 where
  pub captured_test_output : String
  pub catalog_info : CatalogInfo
  pub check_details : String
  pub failure_reason : String
  pub skip_reason : String
  pub state : String

abbrev pub TestSuiteResults : Type 0
TestSuiteResults = Dict String TestCaseResult

pub record Versions : Type 0 where
  pub ocp : String
  pub tnf : String

-- The member `Claim` of the Go type.
pub record Schema : Type 0 where
  pub configurations : TestSuiteConfiguration
  pub nodes : TestSuiteNodes
  pub results : TestSuiteResults
  pub versions : Versions
