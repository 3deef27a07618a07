-- ===== src/Tests/Runs.antt =====
-- A run of the node: an assignment is won, its audit fails, and the node is stopped.
use qsp_protocol_node.Prelude.{
  ◌≡◌, refl, false, true, none, some, [], ◌∷◌, ok, raise, other, timeout,
}
use qsp_protocol_node.Evt.{
  Evt, assigned, error, audit_assigned, traceback, submission_timeout, audit_type,
}
use qsp_protocol_node.Evt.Codec.{Row, decode, encode, decode-encode}
use qsp_protocol_node.Evt.Decimal.{str, int}
use qsp_protocol_node.Pool.Rows.{find, select, insert, update}
use qsp_protocol_node.Pool.ReadBack.{
  ReadsBack, made_to_be_submitted, made_submitted, made_done, made_error, written-ReadsBack,
}
use qsp_protocol_node.Threads.Restart.{timeout_stale_requests}
use qsp_protocol_node.Threads.Poll.Bids.{Bids, poll_requests-Bids}
use qsp_protocol_node.Node.Restarts.{Outlives, restart-Outlives}
use qsp_protocol_node.Pool.Rows.Unique.{UniqueIds}
use qsp_protocol_node.Pool.Manager.{
  Pool, get_events_to_be_processed, close, is_request_processed, add_evt_to_be_assigned,
  set_evt_status_to_error, set_evt_status_to_be_submitted, set_evt_status_to_submitted,
  set_evt_status_to_done, get_events_to_be_submitted,
}
use qsp_protocol_node.Threads.Chain.{Config}
use qsp_protocol_node.Threads.Poll
use qsp_protocol_node.Threads.Poll.{poll_requests}
use qsp_protocol_node.Threads.Perform
use qsp_protocol_node.Threads.Perform.{process_audit_request}
use qsp_protocol_node.Node.{
  Node, rows_of, new_node, with_pool, Step, poll, select_performing, perform, stop, Reach, here,
  next,
}
use qsp_protocol_node.Node.Rows.{IsSound}
use qsp_protocol_node.Node.Invariant.Steps.{new_node-Inv, Reach-Inv}
use qsp_protocol_node.Node.Edges.{Advances}
use qsp_protocol_node.Node.Lifecycle.{final_forever, step-Advances, saved_once, rows-IsSound}

abbrev pub config : Config
config = record {
  audit_contract_address = "0xa7";
  n_blocks_confirmation = 6;
  enable_police_audit_polling = false;
  max_assigned_requests = 1;
  submission_timeout_limit_blocks = 25;
  block_discard_on_restart = 2;
}

-- The contract has assigned the request 7 in block 41, and has nothing else to give.
abbrev seven_assigned : Poll.Answers
seven_assigned = record {
  is_police_node = ok false;
  most_recent_assigned_audit = ok (record {
    request_id = 7;
    requestor = "0xee";
    uri = "file://c.sol";
    price = 90;
    block_number = 41;
  });
  any_request_available = ok 2;
  assigned_request_count = ok 1;
  next_police_assignment = raise timeout;
}

abbrev pub row_seven : Row
row_seven = record {
  request_id = 7;
  requestor = "0xee";
  contract_uri = "file://c.sol";
  evt_name = "LogAuditAssigned";
  assigned_block_nbr = b'4' ∷ b'1' ∷ [];
  submission_block_nbr = none;
  fk_status = assigned;
  fk_type = audit_type;
  price = b'9' ∷ b'0' ∷ [];
  status_info = audit_assigned;
  tx_hash = none;
  submission_attempts = 0;
  is_persisted = false;
  audit_uri = none;
  audit_hash = none;
  audit_state = none;
  full_report = none;
  compressed_report = none;
}

abbrev pub evt_seven : Evt
evt_seven = record {
  request_id = 7;
  requestor = "0xee";
  contract_uri = "file://c.sol";
  evt_name = "LogAuditAssigned";
  assigned_block_nbr = 41;
  submission_block_nbr = none;
  fk_status = assigned;
  fk_type = audit_type;
  price = 90;
  status_info = audit_assigned;
  tx_hash = none;
  submission_attempts = 0;
  is_persisted = false;
  audit_uri = none;
  audit_hash = none;
  audit_state = none;
  full_report = none;
  compressed_report = none;
}

-- An audit that raises.
abbrev audit_fails : Perform.Answers
audit_fails = record { audit = raise (other "no compiler"); block_number = ok 50 }

abbrev polled : Node
polled = record new_node { polling = poll_requests config seven_assigned 50 new_node.polling }

abbrev selected : Node
selected = record polled { performing = get_events_to_be_processed polled.polling.pool }

abbrev failed_node : Node
failed_node = record selected {
  polling = with_pool selected (process_audit_request audit_fails evt_seven selected.polling.pool);
  performing = [];
}

abbrev stopped : Node
stopped = record failed_node { polling = with_pool failed_node (close failed_node.polling.pool) }

abbrev failed_row : Row
failed_row = record row_seven { fk_status = error; status_info = traceback "no compiler" }

seven_taken : selected.performing ≡ row_seven ∷ []
unfolding poll_requests get_events_to_be_processed encode is_request_processed find
    add_evt_to_be_assigned select insert str
seven_taken = refl

seven_decodes : decode row_seven ≡ some evt_seven
unfolding decode int
seven_decodes = refl

seven_failed : find 7 (rows_of failed_node) ≡ some failed_row
unfolding poll_requests get_events_to_be_processed process_audit_request encode find
    set_evt_status_to_error is_request_processed add_evt_to_be_assigned update insert str
seven_failed = refl

to_selected : Reach config new_node selected
to_selected = next (next here (poll seven_assigned 50)) (select_performing refl)

perform_seven : Step config selected failed_node
perform_seven = perform row_seven [] evt_seven audit_fails seven_taken seven_decodes

to_failed : Reach config new_node failed_node
to_failed = next to_selected perform_seven

final_forever_example :
    (row' : Row) × (find 7 (rows_of stopped) ≡ some row') × (row'.fk_status ≡ error)
final_forever_example =
    final_forever config failed_node stopped to_failed (next here stop) 7 failed_row seven_failed
      refl

seven_selected : find 7 (rows_of selected) ≡ some row_seven
unfolding poll_requests get_events_to_be_processed encode is_request_processed find
    add_evt_to_be_assigned select insert str
seven_selected = refl

step-Advances_example : Advances 7 row_seven (rows_of failed_node)
step-Advances_example =
    step-Advances config selected failed_node (Reach-Inv config new_node-Inv to_selected)
      perform_seven 7 row_seven seven_selected

saved_once_example : UniqueIds (rows_of failed_node)
saved_once_example = saved_once config failed_node to_failed

rows-IsSound_example : IsSound failed_row × ((evt : Evt) × (decode failed_row ≡ some evt))
rows-IsSound_example = rows-IsSound config failed_node to_failed 7 failed_row seven_failed

decode-encode_example : decode (encode evt_seven) ≡ some evt_seven
decode-encode_example = decode-encode evt_seven

-- The table with the assignment alone.
abbrev only_seven : Pool
only_seven = record { rows = row_seven ∷ []; closed = false }

seven_found : find 7 (row_seven ∷ []) ≡ some (encode evt_seven)
unfolding find encode str
seven_found = refl

-- What a thread writes over it.
abbrev sent_seven : Evt
sent_seven = record evt_seven { tx_hash = some "0x1f"; status_info = traceback "no gas" }

written-ReadsBack_example :
    ReadsBack only_seven
      (set_evt_status_to_be_submitted sent_seven only_seven)
      evt_seven
      true
      (made_to_be_submitted sent_seven evt_seven)
    × ReadsBack only_seven
        (set_evt_status_to_submitted sent_seven only_seven)
        evt_seven
        false
        (made_submitted sent_seven evt_seven)
    × ReadsBack only_seven
        (set_evt_status_to_done sent_seven only_seven)
        evt_seven
        true
        (made_done sent_seven evt_seven)
    × ReadsBack only_seven
        (set_evt_status_to_error sent_seven only_seven)
        evt_seven
        true
        (made_error sent_seven evt_seven)
written-ReadsBack_example = written-ReadsBack sent_seven evt_seven only_seven refl refl seven_found

-- The node is started again in block 100, where the request of block 41 is stale.
abbrev restarted : Pool
restarted = record {
  rows = record row_seven { fk_status = error; status_info = submission_timeout } ∷ [];
  closed = false;
}

stale_seven : timeout_stale_requests config 100 selected.polling.pool ≡ ok restarted
unfolding timeout_stale_requests get_events_to_be_processed poll_requests is_request_processed find
    add_evt_to_be_assigned select insert decode int encode str get_events_to_be_submitted
    set_evt_status_to_error update
stale_seven = refl

restart-Outlives_example : Outlives 7 row_seven restarted.rows
restart-Outlives_example =
    restart-Outlives config 100 selected.polling.pool restarted
      (Reach-Inv config new_node-Inv to_selected).consistent stale_seven 7 row_seven seven_selected

-- A round in which the node has no assignment yet, and bids.
abbrev audit_ready : Poll.Answers
audit_ready = record {
  is_police_node = raise timeout;
  most_recent_assigned_audit =
      ok (record { request_id = 0; requestor = ""; uri = ""; price = 0; block_number = 0 });
  any_request_available = ok 1;
  assigned_request_count = ok 0;
  next_police_assignment = raise timeout;
}

poll_requests-Bids_example :
    Bids config audit_ready 50 new_node.polling
      (poll_requests config audit_ready 50 new_node.polling)
poll_requests-Bids_example = poll_requests-Bids config audit_ready 50 new_node.polling
