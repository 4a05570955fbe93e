-- ===== src/Sidecar/Reported.antt =====
-- When `handleClaimFile` of certsuite-sidecar/app/main.go ends, and what it has sent when it
-- succeeds.
use cnf_certsuite_operator.Prelude.{
  ℕ, zero, suc, ◌*◌, ◌<◌, String, ◌≡◌, refl, sym, ap, ◌∙◌, inl, inr, true, false, arith,
  Option-cases,
}
use cnf_certsuite_operator.Go.{Result, ok, err, panic, nil_dereference}
use cnf_certsuite_operator.Duration.{second}
use cnf_certsuite_operator.Claim.{Schema}
use cnf_certsuite_operator.Api.{NamespacedName, CertsuiteRun}
use cnf_certsuite_operator.Controller.Cluster.{Answer, found, failure}
use cnf_certsuite_operator.Report.{set_run_cr_status}
use cnf_certsuite_operator.Sidecar.{
  SidecarHost, panicked, reported, log_results, after_status_update, send_status, report_claim,
  handle_claim, handle_bytes, claim_found, claim_loop, handle_claim_file,
}

module _ (H : SidecarHost) where
  open H use {World}

  -- The file is missing at the first `k` looks, five seconds apart, and there at the next one.
  abbrev pub AppearsAfter : ℕ → String → World → Type 0
  AppearsAfter zero path w = H.is_missing path w ≡ false
  AppearsAfter (suc k) path w =
      (H.is_missing path w ≡ true) × AppearsAfter k path (H.sleep (5 * second) w)

  -- The world after `k` waits of five seconds.
  abbrev pub slept : ℕ → World → World
  slept zero w = w
  slept (suc k) w = slept k (H.sleep (5 * second) w)

  pub claim_loop-AppearsAfter :
      (k fuel : ℕ) (path : String) (n : NamespacedName) (w : World)
      → k < fuel
      → AppearsAfter k path w
      → claim_loop H fuel path n w ≡ claim_found H path n (slept k w)
  unfolding claim_loop
  claim_loop-AppearsAfter k zero path n w less h = absurd (omega (arith, less))
  claim_loop-AppearsAfter zero (suc fuel) path n w less h = rw h refl
  claim_loop-AppearsAfter (suc k) (suc fuel) path n w less (missing, h) =
      rw missing
        (claim_loop-AppearsAfter k fuel path n (H.sleep (5 * second) w) (omega (arith, less)) h)

  abbrev pub claim_path : String
  claim_path = H.join (H.getenv "TNF_RESULTS_FOLDER") "claim.json"

  abbrev pub run_name : NamespacedName
  run_name = record { namespace = H.getenv "MY_POD_NAMESPACE"; name = H.getenv "RUN_CR_NAME" }

  -- A report was sent: the status that belongs to a claim and to the run, both as they were read,
  -- and the server has accepted it.
  pub record Reports (w : World) (answer : CertsuiteRun) : Type 0 where
    pub bytes : H.Bytes
    pub claim : Schema
    pub run_cr : CertsuiteRun
    pub sent : CertsuiteRun
    pub claim_read : (H.read_file claim_path (H.sleep (5 * second) w)).0 ≡ found bytes
    pub decoded : H.unmarshal_claim bytes ≡ found claim
    pub run_read :
        (H.get_run run_name (H.read_file claim_path (H.sleep (5 * second) w)).1).0 ≡ found run_cr
    pub built : set_run_cr_status H.unmarshal_details run_cr claim ≡ ok sent
    pub accepted : (u : World) × ((H.update_run_status sent u).0 ≡ found answer)

  reported_inj : {a b : CertsuiteRun} → reported a ≡ reported b → a ≡ b
  reported_inj {a = a} e = ap (λ x. elim x [ reported c ↦ c | _ ↦ a ]) e

  after_status_update-found :
      (a : Answer CertsuiteRun) (answer : CertsuiteRun)
      → after_status_update H a ≡ reported answer
      → a ≡ found answer
  unfolding after_status_update log_results
  after_status_update-found (failure e) answer h = cc
  after_status_update-found (found r) answer h = elim (Option-cases r.status.report) [
    | inl missing ↦ absurd (not_logged r answer (ap (log_results H r) (sym missing) ∙ h))
    | inr (report, e) ↦ ap found (reported_inj (ap (log_results H r) (sym e) ∙ h))
  ]
    where
      not_logged : (r answer : CertsuiteRun) → panicked nil_dereference ≡ reported answer → ⊥
      not_logged r answer e = cc

  -- The resource that was sent and accepted.
  abbrev Accepted : CertsuiteRun → CertsuiteRun → Type 0
  Accepted answer sent = (u : World) × ((H.update_run_status sent u).0 ≡ found answer)

  send_status-Accepted :
      (r : Result CertsuiteRun) (w : World) (answer : CertsuiteRun)
      → (send_status H r w).0 ≡ reported answer
      → (sent : CertsuiteRun) × (r ≡ ok sent) × Accepted answer sent
  unfolding send_status
  send_status-Accepted (ok r) w answer h =
      (r, refl, (w, after_status_update-found (H.update_run_status r w).0 answer h))
  send_status-Accepted (err e) w answer h = cc
  send_status-Accepted (panic p) w answer h = cc

  report_claim-Accepted :
      (claim : Schema) (n : NamespacedName) (a : Answer CertsuiteRun) (w : World)
      (answer : CertsuiteRun)
      → (report_claim H claim n a w).0 ≡ reported answer
      → (run_cr : CertsuiteRun) × (sent : CertsuiteRun) × (a ≡ found run_cr)
        × (set_run_cr_status H.unmarshal_details run_cr claim ≡ ok sent)
        × Accepted answer sent
  unfolding report_claim
  report_claim-Accepted claim n (failure e) w answer h = cc
  report_claim-Accepted claim n (found run_cr) w answer h =
      let (sent, built, accepted) = send_status-Accepted _ w answer h in
      (run_cr, sent, refl, built, accepted)

  handle_claim-Reports :
      (w : World) (answer : CertsuiteRun) (bytes : H.Bytes) (c : Answer Schema)
      → (H.read_file claim_path (H.sleep (5 * second) w)).0 ≡ found bytes
      → H.unmarshal_claim bytes ≡ c
      → (handle_claim H run_name c (H.read_file claim_path (H.sleep (5 * second) w)).1).0
        ≡ reported answer
      → Reports w answer
  unfolding handle_claim
  handle_claim-Reports w answer bytes (failure e) read decodes h = cc
  handle_claim-Reports w answer bytes (found claim) read decodes h =
      let (run_cr, sent, run_read, built, accepted) =
        report_claim-Accepted claim run_name _ _ answer h in
      record {
        bytes = bytes;
        claim = claim;
        run_cr = run_cr;
        sent = sent;
        claim_read = read;
        decoded = decodes;
        run_read = run_read;
        built = built;
        accepted = accepted;
      }

  handle_bytes-Reports :
      (w : World) (answer : CertsuiteRun) (b : Answer H.Bytes)
      → (H.read_file claim_path (H.sleep (5 * second) w)).0 ≡ b
      → (handle_bytes H claim_path run_name b (H.read_file claim_path (H.sleep (5 * second) w)).1).0
        ≡ reported answer
      → Reports w answer
  unfolding handle_bytes
  handle_bytes-Reports w answer (failure e) read h = cc
  handle_bytes-Reports w answer (found bytes) read h =
      handle_claim-Reports w answer bytes (H.unmarshal_claim bytes) read refl h

  -- If the claim is missing at the first `k` looks and there at the next one, and the process
  -- ends with a report after more than `k` looks, then it has sent the status that
  -- `SetRunCRStatus` makes of the claim as it was read five seconds later and of the run as it
  -- was read after that, and the server has accepted it.
  pub handle_claim_file-Reports :
      (k fuel : ℕ) (w : World) (answer : CertsuiteRun)
      → k < fuel
      → AppearsAfter k claim_path w
      → (handle_claim_file H fuel w).0 ≡ reported answer
      → Reports (slept k w) answer
  unfolding handle_claim_file claim_found
  handle_claim_file-Reports k fuel w answer less appears h =
      handle_bytes-Reports (slept k w) answer _ refl
        (rw (claim_loop-AppearsAfter k fuel claim_path run_name w less appears) at h)
