-- ===== src/Api/ConsolePlugin.antt =====
-- The CertsuiteConsolePlugin resource of api/v1alpha1/certsuiteconsoleplugin_types.go, and the
-- conditions (metav1.Condition) of its status.
use cnf_certsuite_operator.Prelude.{ℕ, String, Bool, List}

-- `status` is true for ConditionTrue and false for ConditionFalse, the two that the program sets.
pub record Condition : Type 0 where
  pub condition_type : String
  pub status : Bool
  pub reason : String
  pub message : String
  pub last_transition_time : ℕ

pub record CertsuiteConsolePlugin : Type 0 where
  pub name : String
  pub namespace : String
  pub conditions : List Condition
