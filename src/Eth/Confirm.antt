-- ===== src/Eth/Confirm.antt =====
-- __wait_for_confirmed_transaction_receipt (utils/eth/tx.py). What the chain answers is a function
-- of the round; a difference of blocks is compared with the smaller block on the other side. A read that
-- raises ends the wait by its exception.
pub mod Ends
use qsp_protocol_node.Prelude.{
  ℕ, zero, suc, ◌+◌, ◌*◌, ◌≤◌, ◌<◌, ◌≡◌, refl, Bool, true, false, Option, none, some, arith,
  if◌then◌else◌, leb, Exn, Result, ok, raise, not_confirmed, Bool-cases, Result-cases, subst, sym,
  zero-add, inl, inr, ◌⊎◌, ap, ok-injective, ◌∙◌,
}

-- What a round reads: eth.blockNumber, and the block of the receipt if there is one.
pub record View : Type 0 where
  pub block_number : Result ℕ
  pub receipt : Result (Option ℕ)

-- The receipt is there, with the confirmations wanted.
unfoldable pub is_confirmed : ℕ → ℕ → Option ℕ → Bool
is_confirmed n_blocks_confirmation current_block none = false
is_confirmed n_blocks_confirmation current_block (some tx_block_number) =
    leb (tx_block_number + n_blocks_confirmation) current_block

-- How the body of the loop ends: by `return`, with the block it has read, or by an exception.
pub data Step : Type 0 where
  returns : Step
  goes_on : ℕ → Step
  raises : Exn → Step

unfoldable pub body : ℕ → View → Step
unfolding is_confirmed
body n_blocks_confirmation view = elim view.block_number [
  | raise e ↦ raises e
  | ok current_block ↦ elim view.receipt [
    | raise e ↦ raises e
    | ok current_receipt ↦
        if is_confirmed n_blocks_confirmation current_block current_receipt
        then returns
        else goes_on current_block
  ]
]

-- The loop from round `i` on, up to the block `limit`; `none` is fuel that runs out.
unfoldable pub wait_from : ℕ → ℕ → (ℕ → View) → ℕ → ℕ → ℕ → Option (Result (Unit {0}))
unfolding body
wait_from n limit views zero i current_block = none
wait_from n limit views (suc fuel) i current_block =
    if leb current_block limit
    then elim (body n (views i)) [
      | returns ↦ some (ok tt)
      | goes_on block ↦ wait_from n limit views fuel (i + 1) block
      | raises e ↦ some (raise e)
    ]
    else some (raise not_confirmed)

-- `start_block` and the first `current_block` are two reads.
unfoldable pub wait_for_confirmed_transaction_receipt :
    ℕ → Result ℕ → Result ℕ → (ℕ → View) → ℕ → Option (Result (Unit {0}))
unfolding wait_from
wait_for_confirmed_transaction_receipt n (raise e) first views fuel = some (raise e)
wait_for_confirmed_transaction_receipt n (ok start_block) (raise e) views fuel = some (raise e)
wait_for_confirmed_transaction_receipt n (ok start_block) (ok current_block) views fuel =
    wait_from n (start_block + n * 3) views fuel 0 current_block
