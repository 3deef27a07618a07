-- ===== src/Threads/Perform.antt =====
-- PerformAuditThread.__process_audit_request (audit/threads/perform_audit_thread.py). What `audit`
-- returns rests on compilers, analyzers and uploads outside the repository: it is an argument.
pub mod Outcome
use qsp_protocol_node.Prelude.{
  ℕ, String, Option, none, some, ◌>>=◌, Result, ok, raise, key_error, other,
}
use qsp_protocol_node.Evt.{Evt, report_generated, traceback}
use qsp_protocol_node.Evt.Decimal.{Text}
use qsp_protocol_node.Pool.Manager.{Pool, set_evt_status_to_error, set_evt_status_to_be_submitted}
use qsp_protocol_node.Threads.Chain.{exn_text}

-- The dictionary that `audit` returns.
pub record AuditResult : Type 0 where
  pub audit_state : ℕ
  pub audit_uri : String
  pub audit_hash : String
  pub full_report : String
  pub compressed_report : Text

-- `audit`, where `none` is None, and eth.blockNumber.
pub record Answers : Type 0 where
  pub audit : Result (Option AuditResult)
  pub block_number : Result ℕ

abbrev pub with_report : Evt → AuditResult → ℕ → Evt
with_report evt result block = record evt {
  audit_uri = some result.audit_uri;
  audit_hash = some result.audit_hash;
  audit_state = some result.audit_state;
  full_report = some result.full_report;
  compressed_report = some result.compressed_report;
  submission_block_nbr = some block;
  status_info = report_generated;
}

-- The manager has no method `set_evt_to_error`, which the branch of None calls.
unfoldable pub or_attribute_error : Option AuditResult → Result AuditResult
or_attribute_error none = raise (other "AttributeError: set_evt_to_error")
or_attribute_error (some result) = ok result

-- The body of the `try`.
unfoldable pub process : Answers → Evt → Pool → Result Pool
unfolding or_attribute_error
process answers evt pool = do
  audit_result ← answers.audit
  result ← or_attribute_error audit_result
  block ← answers.block_number
  ok (set_evt_status_to_be_submitted (with_report evt result block) pool)

-- The two `except` clauses: a KeyError is only logged.
unfoldable pub recovered : Evt → Pool → Result Pool → Pool
recovered evt pool (ok pool') = pool'
recovered evt pool (raise key_error) = pool
recovered evt pool (raise e) =
    set_evt_status_to_error (record evt { status_info = traceback (exn_text e) }) pool

unfoldable pub process_audit_request : Answers → Evt → Pool → Pool
unfolding process recovered
process_audit_request answers evt pool = recovered evt pool (process answers evt pool)
