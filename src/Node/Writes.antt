-- ===== src/Node/Writes.antt =====
-- What a handler of an event writes to the table: at most one update, of the event's own row.
pub mod Handlers
use mathlib.Core.Option
use qsp_protocol_node.Prelude.{
  ℕ, ◌+◌, ◌≤◌, ◌≡◌, refl, ap, Bool, true, false, some, List, arith, if_cases,
}
use qsp_protocol_node.Evt.{Evt, Status}
use qsp_protocol_node.Evt.Codec.{Row, encode}
use qsp_protocol_node.Pool.Rows.{update, is_active, is_to_be_submitted, any_status}
use qsp_protocol_node.Pool.Manager.{
  Pool, set_evt_status_to_be_submitted, set_evt_status_to_submitted, set_evt_status_to_done,
  set_evt_status_to_error, to_be_submitted_columns, submitted_columns, done_columns, error_columns,
}
use qsp_protocol_node.Threads.Monitor.{max_submission_attempts}

-- `evt` is the event that was read, `e` the one that is written back; `allowed` are the states into
-- which the thread may move it.
pub data Write (allowed : Status → Bool) (evt : Evt) (rows rows' : List Row) : Type 0 where
  nothing : rows' ≡ rows → Write allowed evt rows rows'
  resubmits :
      (e : Evt) (block : ℕ)
      → allowed Status.to_be_submitted ≡ true
      → evt.submission_attempts + 1 ≤ max_submission_attempts
      → e.submission_block_nbr ≡ some block
      → rows' ≡ update evt.request_id is_active (to_be_submitted_columns (encode e)) rows
      → Write allowed evt rows rows'
  submits :
      (e : Evt)
      → allowed Status.submitted ≡ true
      → rows' ≡ update evt.request_id is_to_be_submitted (submitted_columns (encode e)) rows
      → Write allowed evt rows rows'
  finishes :
      (e : Evt)
      → allowed Status.done ≡ true
      → rows' ≡ update evt.request_id is_active (done_columns (encode e)) rows
      → Write allowed evt rows rows'
  fails :
      (e : Evt)
      → allowed Status.error ≡ true
      → rows' ≡ update evt.request_id any_status (error_columns (encode e)) rows
      → Write allowed evt rows rows'

abbrev MayWrite : (Status → Bool) → Evt → Pool → Pool → Type 0
MayWrite allowed evt pool pool' = Write allowed evt pool.rows pool'.rows

-- The update of the row of `evt` in place of the row of `e`.
same_row :
    {k id : ℕ} (guard : Status → Bool) (set : Row → Row) (rows : List Row)
    → k ≡ id
    → update k guard set rows ≡ update id guard set rows
same_row guard set rows same = ap (λ j. update j guard set rows) same

module _ {allowed : Status → Bool} {evt : Evt} (e : Evt) (same : e.request_id ≡ evt.request_id)
    (pool : Pool) where
  pub Write-to_be_submitted :
      (block : ℕ)
      → allowed Status.to_be_submitted ≡ true
      → evt.submission_attempts + 1 ≤ max_submission_attempts
      → e.submission_block_nbr ≡ some block
      → Write allowed evt pool.rows (set_evt_status_to_be_submitted e pool).rows
  unfolding set_evt_status_to_be_submitted
  Write-to_be_submitted block a le b =
      if_cases (MayWrite allowed evt pool) pool.closed (λ _. nothing refl)
        (λ _. resubmits e block a le b (same_row _ _ _ same))

  pub Write-submitted :
      allowed Status.submitted ≡ true
      → Write allowed evt pool.rows (set_evt_status_to_submitted e pool).rows
  unfolding set_evt_status_to_submitted
  Write-submitted a =
      if_cases (MayWrite allowed evt pool) pool.closed (λ _. nothing refl)
        (λ _. submits e a (same_row _ _ _ same))

  pub Write-done :
      allowed Status.done ≡ true → Write allowed evt pool.rows (set_evt_status_to_done e pool).rows
  unfolding set_evt_status_to_done
  Write-done a =
      if_cases (MayWrite allowed evt pool) pool.closed (λ _. nothing refl)
        (λ _. finishes e a (same_row _ _ _ same))

  pub Write-error :
      allowed Status.error ≡ true
      → Write allowed evt pool.rows (set_evt_status_to_error e pool).rows
  unfolding set_evt_status_to_error
  Write-error a =
      if_cases (MayWrite allowed evt pool) pool.closed (λ _. nothing refl)
        (λ _. fails e a (same_row _ _ _ same))
