-- ===== src/Sidecar/Complete.antt =====
-- `main` of certsuite-sidecar/app/main.go, where its calls succeed or are refused.
use cnf_certsuite_operator.Prelude.{ℕ, ◌*◌, ◌<◌, ◌<>◌, ◌≡◌, refl, ◌∙◌, ap, Option, none, some}
use cnf_certsuite_operator.Go.{Error, ok, error_text}
use cnf_certsuite_operator.Duration.{second}
use cnf_certsuite_operator.Claim.{Schema}
use cnf_certsuite_operator.Api.{CertsuiteRun, CertsuiteReport}
use cnf_certsuite_operator.Controller.Cluster.{found, failure}
use cnf_certsuite_operator.Report.{set_run_cr_status}
use cnf_certsuite_operator.Sidecar.{
  SidecarHost, Ending, fatal, reported, log_results, after_status_update, send_status, report_claim,
  handle_claim, handle_bytes, claim_found, handle_claim_file,
}
use cnf_certsuite_operator.Sidecar.Process.{
  ClientLibrary, main, config_file_of, kube_config_file, default_timeout, after_client_go,
  after_certsuite, build_client, after_config, after_client,
}
use cnf_certsuite_operator.Sidecar.Reported.{
  AppearsAfter, slept, claim_path, run_name, claim_loop-AppearsAfter,
}

module _ (H : SidecarHost) where
  open H use {World}

  -- The claim as it is read after the wait, the run as it is read after the claim, and the resource that
  -- `SetRunCRStatus` makes of the two; `last` is the world in which it is sent.
  pub record Sends (w : World) (sent : CertsuiteRun) (last : World) : Type 0 where
    pub bytes : H.Bytes
    pub claim : Schema
    pub run_cr : CertsuiteRun
    pub read : World
    pub claim_read : H.read_file (claim_path H) (H.sleep (5 * second) w) ≡ (found bytes, read)
    pub decoded : H.unmarshal_claim bytes ≡ found claim
    pub run_read : H.get_run (run_name H) read ≡ (found run_cr, last)
    pub built : set_run_cr_status H.unmarshal_details run_cr claim ≡ ok sent

  claim_found-Sends :
      {w last : World} {sent : CertsuiteRun}
      → Sends w sent last
      → claim_found H (claim_path H) (run_name H) w ≡ send_status H (ok sent) last
  unfolding claim_found handle_bytes handle_claim report_claim
  claim_found-Sends s = rw s.claim_read (rw s.decoded (rw s.run_read (rw s.built refl)))

module _ (H : SidecarHost) (L : ClientLibrary H) where
  open H use {World}

  -- The calls before the claim is looked for, all of which succeed; the file of the configuration may
  -- be missing.
  pub record SetUp (w ready : World) : Type 0 where
    pub config : L.Config
    pub seen : Option Error
    pub with_client_go : World
    pub with_certsuite : World
    pub with_stat : World
    pub with_config : World
    pub client_go_added : L.add_client_go w ≡ (none, with_client_go)
    pub certsuite_added : L.add_certsuite with_client_go ≡ (none, with_certsuite)
    pub looked : L.stat (kube_config_file H L) with_certsuite ≡ (seen, with_stat)
    pub built : L.build_config (config_file_of H L seen) with_stat ≡ (found config, with_config)
    pub connected : L.new_client (L.with_timeout default_timeout config) with_config ≡ (none, ready)

  main-SetUp :
      {w ready : World} (fuel : ℕ)
      → SetUp w ready
      → main H L fuel w ≡ handle_claim_file H fuel ready
  unfolding main after_client_go after_certsuite build_client after_config after_client
  main-SetUp fuel s =
      rw s.client_go_added (rw s.certsuite_added (rw s.looked (rw s.built (rw s.connected refl))))

  main-Sends :
      (k fuel : ℕ) {w ready last : World} {sent : CertsuiteRun}
      → k < fuel
      → SetUp w ready
      → AppearsAfter H k (claim_path H) ready
      → Sends H (slept H k ready) sent last
      → main H L fuel w ≡ send_status H (ok sent) last
  unfolding handle_claim_file
  main-Sends k fuel {ready = ready} less set_up appears s =
      main-SetUp fuel set_up
      ∙ claim_loop-AppearsAfter H k fuel (claim_path H) (run_name H) ready less appears
      ∙ claim_found-Sends H s

  -- Where the calls that build the client succeed, the claim is missing at the first `k` of more looks
  -- and there at the next one, the claim and the run are read and a status is made of them, and the
  -- server accepts it and answers with a resource that has a report, the process ends with that
  -- report.
  pub main-accepted :
      (k fuel : ℕ) {w ready last : World} {sent answer : CertsuiteRun} {report : CertsuiteReport}
      → k < fuel
      → SetUp w ready
      → AppearsAfter H k (claim_path H) ready
      → Sends H (slept H k ready) sent last
      → (H.update_run_status sent last).0 ≡ found answer
      → answer.status.report ≡ some report
      → (main H L fuel w).0 ≡ reported answer
  unfolding send_status after_status_update log_results
  main-accepted k fuel less set_up appears s accepted has_report =
      ap (λ (p : Ending × World). p.0) (main-Sends k fuel less set_up appears s)
      ∙ (rw accepted (rw has_report refl))

  -- Under the same conditions, but where the server refuses the status, the process ends with the
  -- server's error in its text, in the world that this one update leaves: it is not sent again,
  -- whatever the error is.
  pub main-refused :
      (k fuel : ℕ) {w ready last : World} {sent : CertsuiteRun} (e : Error)
      → k < fuel
      → SetUp w ready
      → AppearsAfter H k (claim_path H) ready
      → Sends H (slept H k ready) sent last
      → (H.update_run_status sent last).0 ≡ failure e
      → main H L fuel w ≡ (
        fatal ("Failed to update CertsuiteRun.Status object object: " <> error_text e),
        (H.update_run_status sent last).1,
      )
  unfolding send_status after_status_update
  main-refused k fuel e less set_up appears s refused =
      main-Sends k fuel less set_up appears s ∙ (rw refused refl)
