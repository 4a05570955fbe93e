-- ===== src/Sidecar/Ends.antt =====
-- `handleClaimFile` of certsuite-sidecar/app/main.go ends once the claim is there.
use cnf_certsuite_operator.Prelude.{ℕ, ◌<◌, String, ◌≢◌, Option, none, some}
use cnf_certsuite_operator.Go.{Result, ok, err, panic}
use cnf_certsuite_operator.Claim.{Schema}
use cnf_certsuite_operator.Api.{NamespacedName, CertsuiteRun, CertsuiteReport}
use cnf_certsuite_operator.Controller.Cluster.{Answer, found, failure}
use cnf_certsuite_operator.Sidecar.{
  SidecarHost, waiting, log_results, after_status_update, send_status, report_claim, handle_claim,
  handle_bytes, claim_found, handle_claim_file,
}
use cnf_certsuite_operator.Sidecar.Reported.{
  AppearsAfter, claim_path, run_name, claim_loop-AppearsAfter,
}

module _ (H : SidecarHost) where
  open H use {World}

  log_results_ends : (r : CertsuiteRun) (o : Option CertsuiteReport) → log_results H r o ≢ waiting
  unfolding log_results
  log_results_ends r none = λ e. cc
  log_results_ends r (some report) = λ e. cc

  after_status_update_ends : (a : Answer CertsuiteRun) → after_status_update H a ≢ waiting
  unfolding after_status_update
  after_status_update_ends (failure e) = λ h. cc
  after_status_update_ends (found r) = log_results_ends r r.status.report

  send_status_ends : (r : Result CertsuiteRun) (w : World) → (send_status H r w).0 ≢ waiting
  unfolding send_status
  send_status_ends (ok r) w = after_status_update_ends (H.update_run_status r w).0
  send_status_ends (err e) w = λ h. cc
  send_status_ends (panic p) w = λ h. cc

  report_claim_ends :
      (c : Schema) (n : NamespacedName) (a : Answer CertsuiteRun) (w : World)
      → (report_claim H c n a w).0 ≢ waiting
  unfolding report_claim
  report_claim_ends c n (failure e) w = λ h. cc
  report_claim_ends c n (found r) w = send_status_ends _ w

  handle_claim_ends :
      (n : NamespacedName) (c : Answer Schema) (w : World) → (handle_claim H n c w).0 ≢ waiting
  unfolding handle_claim
  handle_claim_ends n (failure e) w = λ h. cc
  handle_claim_ends n (found c) w = report_claim_ends c n _ _

  handle_bytes_ends :
      (path : String) (n : NamespacedName) (b : Answer H.Bytes) (w : World)
      → (handle_bytes H path n b w).0 ≢ waiting
  unfolding handle_bytes
  handle_bytes_ends path n (failure e) w = λ h. cc
  handle_bytes_ends path n (found b) w = handle_claim_ends n (H.unmarshal_claim b) w

  -- If the claim is missing at the first `k` looks, five seconds apart, and there at the next
  -- one, the loop ends within `k` + 1 rounds.
  pub handle_claim_file_ends :
      (k fuel : ℕ) (w : World)
      → k < fuel
      → AppearsAfter H k (claim_path H) w
      → (handle_claim_file H fuel w).0 ≢ waiting
  unfolding handle_claim_file claim_found
  handle_claim_file_ends k fuel w less appears =
      rw (claim_loop-AppearsAfter H k fuel (claim_path H) (run_name H) w less appears)
        (handle_bytes_ends (claim_path H) (run_name H) _ _)
