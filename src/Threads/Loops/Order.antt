-- ===== src/Threads/Loops/Order.antt =====
-- In which order the loops call their targets.
use qsp_protocol_node.Prelude.{
  ℕ, ◌+◌, ◌≤◌, ◌<◌, List, [], ◌∷◌, arith, ltb, ◌==◌, if_cases, ltb→lt, subst,
}
use qsp_protocol_node.Threads.Loops.{
  time_interval_run, Turn, next_block, block_mined_run, subscriber_run,
}

-- Each time is later than the one before by more than the interval.
abbrev pub Spaced : ℕ → ℕ → List ℕ → Type 0
Spaced interval last [] = Unit {0}
Spaced interval last (now ∷ nows) = (last + interval < now) × Spaced interval now nows

-- Two calls of the target of a polling thread are always more than its interval apart.
pub time_interval_run-Spaced :
    (interval last : ℕ) (nows : List ℕ)
    → Spaced interval last (time_interval_run interval last nows)
unfolding time_interval_run
time_interval_run-Spaced interval last [] = tt
time_interval_run-Spaced interval last (now ∷ nows) =
    if_cases (Spaced interval last) (ltb (last + interval) now)
      (λ e. (ltb→lt (last + interval) now e, time_interval_run-Spaced interval now nows))
      (λ e. time_interval_run-Spaced interval last nows)

abbrev pub Nondecreasing : ℕ → List ℕ → Type 0
Nondecreasing low [] = Unit {0}
Nondecreasing low (n ∷ ns) = (low ≤ n) × Nondecreasing n ns

abbrev pub Ascending : ℕ → List ℕ → Type 0
Ascending low [] = Unit {0}
Ascending low (n ∷ ns) = (low < n) × Ascending n ns

next_block-le : (current remote : ℕ) → current ≤ next_block current remote
unfolding next_block
next_block-le current remote = ground arith

block_mined_run-Nondecreasing :
    (polling last current : ℕ) (turns : List Turn)
    → Nondecreasing current (block_mined_run polling last current turns)
unfolding block_mined_run
block_mined_run-Nondecreasing polling last current [] = tt
block_mined_run-Nondecreasing polling last current (turn ∷ turns) =
    let block = next_block current turn.remote_block_number in
    if_cases (Nondecreasing current) (ltb (last + polling) turn.now)
      (λ e. (
        next_block-le current turn.remote_block_number,
        block_mined_run-Nondecreasing polling turn.now block turns,
      ))
      (λ e. (omega arith, block_mined_run-Nondecreasing polling last current turns))

subscriber_run-Ascending :
    (last : ℕ) (blocks : List ℕ)
    → Nondecreasing last blocks
    → Ascending last (subscriber_run last blocks)
unfolding subscriber_run
subscriber_run-Ascending last [] h = tt
subscriber_run-Ascending last (block ∷ blocks) h =
    if_cases (Ascending last) (last == block)
      (λ e.
        subscriber_run-Ascending last blocks
          (subst (λ b. Nondecreasing b blocks) (ground arith) h.1))
      (λ e. (ground arith, subscriber_run-Ascending block blocks h.1))

-- A thread that looks at the block polling thread at each turn is called for blocks in strictly
-- ascending order, whatever the chain says: for no block twice, also where the chain goes back.
pub subscribed_blocks-Ascending :
    (polling last : ℕ) (turns : List Turn)
    → Ascending 0 (subscriber_run 0 (block_mined_run polling last 0 turns))
subscribed_blocks-Ascending polling last turns =
    subscriber_run-Ascending 0 (block_mined_run polling last 0 turns)
      (block_mined_run-Nondecreasing polling last 0 turns)
