-- ===== src/Threads/Restart.antt =====
-- QSPAuditNode.__timeout_stale_requests (audit/audit.py), run on start before the threads.
use qsp_protocol_node.Prelude.{ℕ, ◌+◌, if◌then◌else◌, leb, Result, ◌>>=◌}
use qsp_protocol_node.Evt.{Evt, submission_timeout}
use qsp_protocol_node.Pool.Manager.{
  Pool, set_evt_status_to_error, process_evts, get_events_to_be_processed,
  get_events_to_be_submitted,
}
use qsp_protocol_node.Threads.Chain.{Config}

-- first_valid_block >= assigned_block_nbr, where the first is the block number less the limit plus
-- the discard; the limit is moved to the other side.
unfoldable pub timeout_event : Config → ℕ → Evt → Pool → Pool
timeout_event config block_number evt pool =
    if leb (evt.assigned_block_nbr + config.submission_timeout_limit_blocks)
      (block_number + config.block_discard_on_restart)
    then set_evt_status_to_error (record evt { status_info = submission_timeout }) pool
    else pool

unfoldable pub timeout_stale_requests : Config → ℕ → Pool → Result Pool
unfolding timeout_event process_evts
timeout_stale_requests config block_number pool = do
  pool' ← process_evts (timeout_event config block_number) (get_events_to_be_processed pool) pool
  process_evts (timeout_event config block_number) (get_events_to_be_submitted pool') pool'
