-- ===== src/Threads/Submit.antt =====
-- SubmitReportThread.__process_submission_request (audit/threads/submit_report_thread.py).
pub mod Check
use qsp_protocol_node.Prelude.{
  String, Bool, some, ◌>>=◌, if◌then◌else◌, Result, ok, raise, key_error, deduplication,
  not_confirmed, other,
}
use qsp_protocol_node.Evt.{Evt, report_submitted, traceback, is_audit, is_police_check}
use qsp_protocol_node.Pool.Manager.{Pool, set_evt_status_to_error, set_evt_status_to_submitted}
use qsp_protocol_node.Threads.Chain.{Transaction, submit_report, submit_police_report, exn_text}

-- __check_report on the event, and `send_signed_transaction`, which gives the hash as text.
pub record Answers : Type 0 where
  pub check_report : Evt → Result Bool
  pub send : Transaction → Result String

-- The transaction of __submit_audit_report or of __submit_police_report.
unfoldable pub report_transaction : Answers → Evt → Result Transaction
unfolding is_audit is_police_check
report_transaction answers evt =
    if is_audit evt
    then ok (submit_report evt.request_id evt.audit_state evt.compressed_report)
    else if is_police_check evt
    then (do
      is_verified ← answers.check_report evt
      ok (submit_police_report evt.request_id evt.compressed_report is_verified))
    else raise (other "Unknown report type")

-- The body of the `try`.
unfoldable pub submit : Answers → Evt → Pool → Result Pool
unfolding report_transaction
submit answers evt pool = do
  transaction ← report_transaction answers evt
  hash ← answers.send transaction
  ok (
      set_evt_status_to_submitted
        (record evt { tx_hash = some hash; status_info = report_submitted }) pool)

-- The `except` clauses: three kinds of exceptions are only logged.
unfoldable pub recovered : Evt → Pool → Result Pool → Pool
recovered evt pool (ok pool') = pool'
recovered evt pool (raise deduplication) = pool
recovered evt pool (raise not_confirmed) = pool
recovered evt pool (raise key_error) = pool
recovered evt pool (raise e) =
    set_evt_status_to_error (record evt { status_info = traceback (exn_text e) }) pool

unfoldable pub process_submission_request : Answers → Evt → Pool → Pool
unfolding submit recovered
process_submission_request answers evt pool = recovered evt pool (submit answers evt pool)
