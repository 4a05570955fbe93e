-- ===== src/Sidecar/Examples.antt =====
-- A claim that is there at the third look; the world counts the waits. In one cluster the server accepts
-- the status, and in the other it refuses every one for a conflict.
use cnf_certsuite_operator.Prelude.{ℕ, ◌+◌, String, ◌<>◌, ◌≡◌, ◌≢◌, refl, none, some, ltb, arith}
use cnf_certsuite_operator.Go.{Error, ok, api, conflict, error_text}
use cnf_certsuite_operator.Api.{CertsuiteRun, CertsuiteReport}
use cnf_certsuite_operator.Controller.Cluster.{Answer, found, failure}
use cnf_certsuite_operator.Report.{set_run_cr_status}
use cnf_certsuite_operator.Report.Examples.{decode, a_run, three_claim}
use cnf_certsuite_operator.Sidecar.{
  SidecarHost, Ending, waiting, reported, fatal, handle_claim_file,
}
use cnf_certsuite_operator.Sidecar.Reported.{Reports, slept, handle_claim_file-Reports}
use cnf_certsuite_operator.Sidecar.Ends.{handle_claim_file_ends}
use cnf_certsuite_operator.Sidecar.Process.{ClientLibrary, main}
use cnf_certsuite_operator.Sidecar.Complete.{SetUp, Sends, main-accepted, main-refused}

abbrev host : SidecarHost
host = record {
  World = ℕ;
  Bytes = String;
  getenv = λ name. name;
  join = λ folder name. name;
  is_missing = λ path w. ltb w 2;
  sleep = λ time w. w + 1;
  read_file = λ path w. (found path, w);
  unmarshal_claim = λ bytes. found three_claim;
  unmarshal_details = decode;
  get_run = λ n w. (found a_run, w);
  update_run_status = λ r w. (found r, w);
}

abbrev run_of : Ending → CertsuiteRun
run_of (reported r) = r
run_of _ = a_run

abbrev answer : CertsuiteRun
answer = run_of (handle_claim_file host 3 0).0

claim_reported : (handle_claim_file host 3 0).0 ≡ reported answer
unfolding handle_claim_file
claim_reported = refl

handle_claim_file-Reports_example : Reports host (slept host 2 0) answer
handle_claim_file-Reports_example =
    handle_claim_file-Reports host 2 3 0 answer (omega arith) (refl, (refl, refl)) claim_reported

handle_claim_file_ends_example : (handle_claim_file host 3 0).0 ≢ waiting
handle_claim_file_ends_example =
    handle_claim_file_ends host 2 3 0 (omega arith) (refl, (refl, refl))

abbrev refusal : Error
refusal = api conflict "the object has been modified"

abbrev refusing_host : SidecarHost
refusing_host = record host { update_run_status = λ r w. (failure refusal, w) }

-- The process runs in the cluster: it has no configuration file.
abbrev library : (H : SidecarHost) → ClientLibrary H
library H = record {
  Config = ℕ;
  add_client_go = λ w. (none, w);
  add_certsuite = λ w. (none, w);
  stat = λ path w. (some (api conflict "no such file"), w);
  build_config = λ path w. (found 0, w);
  with_timeout = λ time c. time;
  new_client = λ c w. (none, w);
}

abbrev set_up : (H : SidecarHost) (w : H.World) → SetUp H (library H) w w
set_up H w = record {
  config = 0;
  seen = some (api conflict "no such file");
  with_client_go = w;
  with_certsuite = w;
  with_stat = w;
  with_config = w;
  client_go_added = refl;
  certsuite_added = refl;
  looked = refl;
  built = refl;
  connected = refl;
}

built : set_run_cr_status decode a_run three_claim ≡ ok answer
unfolding set_run_cr_status handle_claim_file
built = refl

has_report : (report : CertsuiteReport) × (answer.status.report ≡ some report)
unfolding set_run_cr_status handle_claim_file
has_report = (_, refl)

abbrev host_sends :
    (answer_of : CertsuiteRun → Answer CertsuiteRun)
    → Sends (record host { update_run_status = λ r w. (answer_of r, w) }) 2 answer 3
host_sends answer_of = record {
  bytes = "claim.json";
  claim = three_claim;
  run_cr = a_run;
  read = 3;
  claim_read = refl;
  decoded = refl;
  run_read = refl;
  built = built;
}

main-accepted_example : (main host (library host) 3 0).0 ≡ reported answer
main-accepted_example =
    main-accepted host (library host) 2 3 (omega arith) (set_up host 0) (refl, (refl, refl))
      (host_sends found) refl has_report.1

main-refused_example :
    main refusing_host (library refusing_host) 3 0
    ≡ (fatal ("Failed to update CertsuiteRun.Status object object: " <> error_text refusal), 3)
main-refused_example =
    main-refused refusing_host (library refusing_host) 2 3 refusal (omega arith)
      (set_up refusing_host 0) (refl, (refl, refl)) (host_sends (λ r. failure refusal)) refl
