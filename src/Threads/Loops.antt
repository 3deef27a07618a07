-- ===== src/Threads/Loops.antt =====
-- The loops of the threads (audit/threads/qsp_thread.py). A turn of a loop sees the time, or a block,
-- while `exec` holds; the turns of a run are a list. A difference of times is compared with the
-- earlier time on the other side. A target that raises ends its thread, and so the list.
pub mod Order
use qsp_protocol_node.Prelude.{
  ℕ, ◌+◌, List, [], ◌∷◌, if◌then◌else◌, ltb, ◌==◌, Result, ok, raise, ◌>>=◌,
}

-- TimeIntervalPollingThread.run: the times at which the target is called.
unfoldable pub time_interval_run : ℕ → ℕ → List ℕ → List ℕ
time_interval_run polling_interval last_called [] = []
time_interval_run polling_interval last_called (now ∷ nows) =
    let called = time_interval_run polling_interval now nows in
    let waits = time_interval_run polling_interval last_called nows in
    if ltb (last_called + polling_interval) now then now ∷ called else waits

-- What a turn of the block polling thread meets: the time, and eth.blockNumber.
pub record Turn : Type 0 where
  pub now : ℕ
  pub remote_block_number : ℕ

-- The assignment to `current_block`, which never goes back.
unfoldable pub next_block : ℕ → ℕ → ℕ
next_block current_block remote_block_number =
    if ltb current_block remote_block_number then remote_block_number else current_block

-- BlockMinedPollingThread.run: `current_block` after each turn.
unfoldable pub block_mined_run : ℕ → ℕ → ℕ → List Turn → List ℕ
unfolding next_block
block_mined_run block_mined_polling last_called current_block [] = []
block_mined_run block_mined_polling last_called current_block (turn ∷ turns) =
    let block = next_block current_block turn.remote_block_number in
    let called = block ∷ block_mined_run block_mined_polling turn.now block turns in
    let waits =
      current_block ∷ block_mined_run block_mined_polling last_called current_block turns in
    if ltb (last_called + block_mined_polling) turn.now then called else waits

-- BlockMinedSubscriberThread.run, by the blocks that it sees: those for which the target is called.
unfoldable pub subscriber_run : ℕ → List ℕ → List ℕ
subscriber_run last_block_number [] = []
subscriber_run last_block_number (current_block ∷ blocks) =
    let called = subscriber_run current_block blocks in
    let waits = subscriber_run last_block_number blocks in
    if last_block_number == current_block then waits else current_block ∷ called
