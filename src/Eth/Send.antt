-- ===== src/Eth/Send.antt =====
-- __send_signed_transaction (utils/eth/tx.py): the retries and the nonce.
pub mod Retries
use qsp_protocol_node.Prelude.{
  ℕ, zero, suc, ◌+◌, String, Bool, Option, none, some, if◌then◌else◌, ◌==◌, Result, ok, raise, Exn,
  value_error, deduplication, key_error, not_confirmed, timeout, not_enough_stake,
  report_formatting, other, ◌>>=◌,
}
use qsp_protocol_node.Eth.Args.{Account, Args, mk_args}

-- What sending asks of web3, by the number of the round: `mentions e text` is `text in repr(e)`, and
-- `send_raw` builds, signs and sends. `confirm` is __wait_for_confirmed_transaction_receipt, whose
-- loop is in the module Confirm.
pub record Web3 : Type 0 where
  pub mentions : String → String → Bool
  pub transact : Args → Result (Option String)
  pub first_transaction_count : Result ℕ
  pub transaction_count : ℕ → Result ℕ
  pub send_raw : ℕ → Args → Result String
  pub wait_for_transaction_receipt : ℕ → String → Result Bool
  pub confirm : ℕ → String → Result Bool

-- How the node sends: whether it waits for the receipt, and for how many blocks on it.
pub record Waiting : Type 0 where
  pub wait_for_transaction_receipt : Bool
  pub n_blocks_confirmation : ℕ

-- The body of the `try` of round `i`.
unfoldable pub send : Web3 → Waiting → ℕ → Args → Result String
send web3 waiting i args = do
  tx_hash ← web3.send_raw i args
  if waiting.wait_for_transaction_receipt
      then (do
        receipt ← web3.wait_for_transaction_receipt i tx_hash
        if waiting.n_blocks_confirmation == 0
            then ok tx_hash
            else (do confirmed ← web3.confirm i tx_hash; ok tx_hash))
      else ok tx_hash

-- The exceptions of a round: those of type ValueError are retried, by another nonce if theirs is taken.
pub data Retry : Type 0 where
  again : ℕ → Retry
  give_up : Exn → Retry

unfoldable pub retry_value_error : Web3 → ℕ → ℕ → String → Retry
retry_value_error web3 i nonce e =
    if web3.mentions e "replacement transaction underpriced"
    then again (nonce + 1)
    else if web3.mentions e "nonce too low"
    then elim (web3.transaction_count i) [ ok count ↦ again (nonce + 1) | raise x ↦ give_up x ]
    else if web3.mentions e "known transaction"
    then give_up deduplication
    else again nonce

-- The `except` clauses of round `i`; `last` is `i == attempts - 1`.
unfoldable pub retry : Web3 → ℕ → Bool → ℕ → Exn → Retry
unfolding retry_value_error
retry web3 i last nonce (value_error e) =
    if last then give_up (value_error e) else retry_value_error web3 i nonce e
retry web3 i last nonce e = give_up e

-- The rounds from `i` on, `left` of them. The range that runs out returns None.
unfoldable pub attempts_from : Web3 → Waiting → Args → ℕ → ℕ → ℕ → Result (Option String)
unfolding retry
attempts_from web3 waiting args i zero nonce = ok none
attempts_from web3 waiting args i (suc left) nonce =
    elim (send web3 waiting i (record args { nonce = some nonce })) [
      | ok tx_hash ↦ ok (some tx_hash)
      | raise e ↦ elim (retry web3 i (left == 0) nonce e) [
        | give_up x ↦ raise x
        | again next_nonce ↦ attempts_from web3 waiting args (i + 1) left next_nonce
      ]
    ]

unfoldable pub send_signed_transaction : Account → Web3 → Waiting → ℕ → Result (Option String)
unfolding mk_args attempts_from
send_signed_transaction config web3 waiting attempts = do
  args ← mk_args config
  elim config.account_private_key [
    | none ↦ web3.transact args
    | some key ↦ (do
      nonce ← web3.first_transaction_count
      attempts_from web3 waiting args 0 attempts nonce)
  ]
