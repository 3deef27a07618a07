-- ===== src/Threads/Monitor.antt =====
-- MonitorSubmissionThread.__monitor_submission_timeout (audit/threads/monitor_submission_thread.py).
pub mod Confirmed
use qsp_protocol_node.Prelude.{
  ℕ, ◌+◌, Bool, none, some, if◌then◌else◌, ltb, ◌>>=◌, Result, ok, raise, Exn, key_error, other,
}
use qsp_protocol_node.Evt.{
  Evt, report_confirmed, max_attempts_reached, outside_window, resubmitting, unexpected,
}
use qsp_protocol_node.Pool.Manager.{
  Pool, set_evt_status_to_done, set_evt_status_to_error, set_evt_status_to_be_submitted,
}
use qsp_protocol_node.Threads.Chain.{Config, exn_text}

abbrev pub max_submission_attempts : ℕ
max_submission_attempts = 3

-- isAuditFinished(request_id) and eth.blockNumber, asked in this order.
pub record Answers : Type 0 where
  pub is_finished : Result Bool
  pub block_number : Result ℕ

-- `current_block - submission_block` on a column that is None is a TypeError.
unfoldable pub submission_block : Evt → Result ℕ
submission_block evt = elim evt.submission_block_nbr [
  | none ↦ raise (other "TypeError")
  | some block ↦ ok block
]

-- The branch of a report that is finished on the chain. The difference of the two blocks is below
-- the confirmations wanted exactly when the current block is below their sum.
unfoldable pub check_confirmed : Config → ℕ → Evt → Pool → Result Pool
unfolding submission_block
check_confirmed config current_block evt pool = do
  submitted_at ← submission_block evt
  if ltb current_block (submitted_at + config.n_blocks_confirmation)
      then ok pool
      else ok (set_evt_status_to_done (record evt { status_info = report_confirmed }) pool)

-- The branch of a report that is not: retry within the window, while attempts are left.
unfoldable pub check_window : ℕ → ℕ → Evt → Pool → Pool
check_window current_block timeout_limit_blocks evt pool =
    if ltb current_block (evt.assigned_block_nbr + timeout_limit_blocks)
    then (if ltb max_submission_attempts (evt.submission_attempts + 1)
        then set_evt_status_to_error (record evt { status_info = max_attempts_reached }) pool
        else set_evt_status_to_be_submitted
            (record evt {
              status_info = resubmitting evt.request_id (evt.submission_attempts + 1);
              tx_hash = none;
            })
            pool)
    else set_evt_status_to_error (record evt { status_info = outside_window }) pool

-- The body of the `try`.
unfoldable pub monitor : Config → Answers → ℕ → Evt → Pool → Result Pool
unfolding check_confirmed check_window
monitor config answers timeout_limit_blocks evt pool = do
  is_finished ← answers.is_finished
  current_block ← answers.block_number
  if is_finished
      then check_confirmed config current_block evt pool
      else ok (check_window current_block timeout_limit_blocks evt pool)

-- The two `except` clauses: a KeyError is final, anything else is retried while attempts are left.
unfoldable pub recover : Evt → Pool → Exn → Pool
recover evt pool key_error =
    set_evt_status_to_error (record evt { status_info = unexpected (exn_text key_error) }) pool
recover evt pool e =
    let evt' = record evt { status_info = unexpected (exn_text e) } in
    if ltb max_submission_attempts (evt.submission_attempts + 1)
    then set_evt_status_to_error evt' pool
    else set_evt_status_to_be_submitted evt' pool

unfoldable pub recovered : Evt → Pool → Result Pool → Pool
recovered evt pool (ok pool') = pool'
recovered evt pool (raise e) = recover evt pool e

unfoldable pub monitor_submission_timeout : Config → Answers → ℕ → Evt → Pool → Pool
unfolding monitor recover recovered
monitor_submission_timeout config answers timeout_limit_blocks evt pool =
    recovered evt pool (monitor config answers timeout_limit_blocks evt pool)
