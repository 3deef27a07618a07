-- ===== src/Threads/Rewards.antt =====
-- ClaimRewardsThread (audit/threads/claim_rewards_thread.py).
pub mod Drained
use qsp_protocol_node.Prelude.{
  ℕ, zero, suc, ◌+◌, String, Bool, true, false, ◌&&◌, Option, none, some, if◌then◌else◌, Result, ok,
  raise, other, ◌>>=◌,
}

-- What one run of the thread meets: the n-th answer to hasAvailableRewards, the n-th transaction,
-- and whether the thread is still to run when the n-th turn of the loop begins.
pub record Answers : Type 0 where
  pub has_available_rewards : ℕ → Result Bool
  pub send_signed_transaction : ℕ → Result (Option String)
  pub exec : ℕ → Bool

-- __claim_rewards: the `except` clauses raise again what they catch.
unfoldable pub claim_rewards : Answers → ℕ → Result String
claim_rewards answers i = do
  tx_hash ← answers.send_signed_transaction i
  elim tx_hash [
    | none ↦ raise (other "The claim rewards transaction did not complete")
    | some hash ↦ ok hash
  ]

-- `while self.exec and available_rewards`, from turn `i` on: the number of rewards that were claimed.
-- A claim that fails ends the loop; `none` is fuel that runs out.
unfoldable pub claim_loop : Answers → ℕ → ℕ → Bool → Option (Result ℕ)
unfolding claim_rewards
claim_loop answers zero i available_rewards = none
claim_loop answers (suc fuel) i available_rewards =
    if answers.exec i && available_rewards
    then elim (claim_rewards answers i) [
      | raise e ↦ some (ok i)
      | ok hash ↦ elim (answers.has_available_rewards (i + 1)) [
        | raise e ↦ some (raise e)
        | ok available ↦ claim_loop answers fuel (i + 1) available
      ]
    ]
    else some (ok i)

unfoldable pub claim_rewards_if_available : Answers → ℕ → Option (Result ℕ)
unfolding claim_loop
claim_rewards_if_available answers fuel = elim (answers.has_available_rewards 0) [
  | raise e ↦ some (raise e)
  | ok available_rewards ↦ claim_loop answers fuel 0 available_rewards
]
