-- ===== src/Sidecar.antt =====
-- certsuite-sidecar/app/main.go: `handleClaimFile`, which waits for the claim and reports it. The
-- file system, the environment and the client are parameters. The loop has no end of its own: it
-- runs on fuel, one unit for each look at the file, and `waiting` means that the fuel has run
-- out.
pub mod Process
pub mod Reported
pub mod Complete
pub mod Ends
mod Examples
use cnf_certsuite_operator.Prelude.{
  ℕ, zero, suc, ◌*◌, String, ◌<>◌, Bool, true, false, Option, none, some, if◌then◌else◌,
}
use cnf_certsuite_operator.Go.{Error, Result, ok, err, panic, Panic, error_text, nil_dereference}
use cnf_certsuite_operator.Duration.{second}
use cnf_certsuite_operator.Claim.{Schema}
use cnf_certsuite_operator.Api.{NamespacedName, CertsuiteRun, CertsuiteReport}
use cnf_certsuite_operator.Controller.Cluster.{Answer, found, failure}
use cnf_certsuite_operator.Report.{set_run_cr_status}
use cnf_certsuite_operator.Report.Details.{CheckDetails}

abbrev pub pod_namespace_env_var : String
pod_namespace_env_var = "MY_POD_NAMESPACE"

abbrev pub run_cr_name_env_var : String
run_cr_name_env_var = "RUN_CR_NAME"

abbrev pub results_folder_env_var : String
results_folder_env_var = "TNF_RESULTS_FOLDER"

abbrev pub claim_file_name : String
claim_file_name = "claim.json"

abbrev pub multiplier : ℕ
multiplier = 5

pub record SidecarHost : Type 1 where
  pub World : Type 0
  pub Bytes : Type 0
  pub getenv : String → String
  -- filepath.Join
  pub join : String → String → String
  -- os.IsNotExist of os.Stat's error
  pub is_missing : String → World → Bool
  pub sleep : ℕ → World → World
  pub read_file : String → World → Answer Bytes × World
  -- json.Unmarshal, to a claim and to the details of a check
  pub unmarshal_claim : Bytes → Answer Schema
  pub unmarshal_details : String → Option CheckDetails
  pub get_run : NamespacedName → World → Answer CertsuiteRun × World
  -- Status().Update writes the server's answer over the resource.
  pub update_run_status : CertsuiteRun → World → Answer CertsuiteRun × World

-- logrus.Fatalf ends the process with its text.
pub data Ending : Type 0 where
  waiting : Ending
  fatal : String → Ending
  panicked : Panic → Ending
  reported : CertsuiteRun → Ending

module _ (H : SidecarHost) where
  open H use {World}

  -- The last log line reads the report of the answer.
  unfoldable pub log_results : CertsuiteRun → Option CertsuiteReport → Ending
  log_results run_cr none = panicked nil_dereference
  log_results run_cr (some report) = reported run_cr

  unfoldable pub after_status_update : Answer CertsuiteRun → Ending
  unfolding log_results
  after_status_update (failure e) =
      fatal ("Failed to update CertsuiteRun.Status object object: " <> error_text e)
  after_status_update (found run_cr) = log_results run_cr run_cr.status.report

  -- `SetRunCRStatus` returns no error.
  unfoldable pub send_status : Result CertsuiteRun → World → Ending × World
  unfolding after_status_update
  send_status (ok run_cr) w =
      let (a, w1) = H.update_run_status run_cr w in (after_status_update a, w1)
  send_status (err e) w = (fatal (error_text e), w)
  send_status (panic p) w = (panicked p, w)

  unfoldable pub report_claim :
      Schema → NamespacedName → Answer CertsuiteRun → World → Ending × World
  unfolding send_status set_run_cr_status
  report_claim claim_content n (failure e) w =
      (fatal ("Failed to get CertsuiteRun CR " <> (n.name <> (" (ns " <> (n.namespace <> ")")))), w)
  report_claim claim_content n (found run_cr) w =
      send_status (set_run_cr_status H.unmarshal_details run_cr claim_content) w

  unfoldable pub handle_claim : NamespacedName → Answer Schema → World → Ending × World
  unfolding report_claim
  handle_claim n (failure e) w = (fatal ("Failed to unmarshal claim json: " <> error_text e), w)
  handle_claim n (found claim_content) w =
      let (a, w1) = H.get_run n w in report_claim claim_content n a w1

  unfoldable pub handle_bytes : String → NamespacedName → Answer H.Bytes → World → Ending × World
  unfolding handle_claim
  handle_bytes path n (failure e) w =
      (fatal ("Failed to read claim file " <> (path <> (": " <> error_text e))), w)
  handle_bytes path n (found claim_bytes) w = handle_claim n (H.unmarshal_claim claim_bytes) w

  -- The file is there.
  unfoldable pub claim_found : String → NamespacedName → World → Ending × World
  unfolding handle_bytes
  claim_found path n w =
      let (a, w1) = H.read_file path (H.sleep (multiplier * second) w) in handle_bytes path n a w1

  unfoldable pub claim_loop : ℕ → String → NamespacedName → World → Ending × World
  unfolding claim_found
  claim_loop zero path n w = (waiting, w)
  claim_loop (suc fuel) path n w =
      let later = claim_loop fuel path n (H.sleep (multiplier * second) w) in
      if H.is_missing path w then later else claim_found path n w

  unfoldable pub handle_claim_file : ℕ → World → Ending × World
  unfolding claim_loop
  handle_claim_file fuel w =
      claim_loop fuel (H.join (H.getenv results_folder_env_var) claim_file_name)
        (record { namespace = H.getenv pod_namespace_env_var; name = H.getenv run_cr_name_env_var })
        w
