-- ===== src/Tests/Monitoring.antt =====
-- A submission that is finished on the chain, ten blocks after it was made.
use qsp_protocol_node.Prelude.{◌≡◌, ◌≢◌, refl, true, false, none, some, [], ◌∷◌, ok}
use qsp_protocol_node.Evt.{Evt, submitted, done, report_submitted, report_confirmed, audit_type}
use qsp_protocol_node.Evt.Codec.{Row, encode}
use qsp_protocol_node.Pool.Rows.{find, update}
use qsp_protocol_node.Pool.Manager.{Pool, set_evt_status_to_done}
use qsp_protocol_node.Threads.Chain.{Config}
use qsp_protocol_node.Threads.Monitor
use qsp_protocol_node.Threads.Monitor.{monitor_submission_timeout}
use qsp_protocol_node.Threads.Monitor.Confirmed.{Final, monitor_submission_timeout-Final}

abbrev config : Config
config = record {
  audit_contract_address = "0xa7";
  n_blocks_confirmation = 6;
  enable_police_audit_polling = false;
  max_assigned_requests = 1;
  submission_timeout_limit_blocks = 25;
  block_discard_on_restart = 2;
}

abbrev finished : Monitor.Answers
finished = record { is_finished = ok true; block_number = ok 60 }

abbrev submission : Evt
submission = record {
  request_id = 7;
  requestor = "0xee";
  contract_uri = "file://c.sol";
  evt_name = "LogAuditAssigned";
  assigned_block_nbr = 41;
  submission_block_nbr = some 50;
  fk_status = submitted;
  fk_type = audit_type;
  price = 90;
  status_info = report_submitted;
  tx_hash = some "0xbeef";
  submission_attempts = 1;
  is_persisted = false;
  audit_uri = none;
  audit_hash = none;
  audit_state = some 4;
  full_report = none;
  compressed_report = none;
}

abbrev submission_row : Row
submission_row = encode submission

abbrev pool : Pool
pool = record { rows = submission_row ∷ []; closed = false }

abbrev confirmed_row : Row
confirmed_row = record submission_row {
  fk_status = done;
  is_persisted = true;
  status_info = report_confirmed;
}

submission_found : find 7 pool.rows ≡ some submission_row
unfolding find encode
submission_found = refl

submission_status : submission_row.fk_status ≢ done
unfolding encode
submission_status h = cc

submission_confirmed :
    find 7 (monitor_submission_timeout config finished 20 submission pool).rows ≡ some confirmed_row
unfolding find monitor_submission_timeout set_evt_status_to_done update encode
submission_confirmed = refl

monitor_submission_timeout-Final_example : Final config finished submission
monitor_submission_timeout-Final_example =
    monitor_submission_timeout-Final config finished 20 submission pool submission_row confirmed_row
      submission_found submission_status submission_confirmed refl
