-- ===== src/Node/Start.antt =====
-- QSPAuditNode.start up to the threads: the stake, the minimum price, and the requests that are stale
-- (audit/audit.py).
pub mod Checked
use qsp_protocol_node.Prelude.{
  ℕ, ◌*◌, ◌^◌, String, Bool, true, false, not, ◌&&◌, Option, none, some, List, [], ◌∷◌,
  if◌then◌else◌, ltb, ◌==◌, Result, ok, raise, other, Exn, ◌>>=◌,
}
use qsp_protocol_node.Pool.Manager.{Pool}
use qsp_protocol_node.Threads.Chain.{Config}
use qsp_protocol_node.Threads.Poll.{is_police_officer}
use qsp_protocol_node.Threads.Restart.{timeout_stale_requests}

-- What the contract and the chain answer while a node starts.
pub record Answers : Type 0 where
  pub is_police_node : Result Bool
  pub has_enough_stake : Result Bool
  pub min_audit_price : Result ℕ
  pub min_audit_price_lower_cap : Result ℕ
  pub send_price : ℕ → Result (Option String)
  pub block_number : Result ℕ

-- QSPAuditNode.has_enough_stake: an exception counts as no.
unfoldable pub has_enough_stake : Result Bool → Bool
has_enough_stake (ok has_stake) = has_stake
has_enough_stake (raise e) = false

-- __check_stake. The two further answers that it asks for only go into its message.
unfoldable pub check_stake : Config → Answers → Result (Unit {0})
unfolding has_enough_stake is_police_officer
check_stake config answers =
    if is_police_officer answers.is_police_node && not config.enable_police_audit_polling
    then ok tt
    else if not (has_enough_stake answers.has_enough_stake)
    then raise (other "Audit node does not have enough stake")
    else ok tt

-- __update_min_price: its `except` clauses raise again what they catch. The result is the price sent.
unfoldable pub update_min_price : ℕ → Answers → Result ℕ
update_min_price min_price_in_qsp answers = do
  tx_hash ← answers.send_price (min_price_in_qsp * 10 ^ 18)
  elim tx_hash [
    | none ↦ raise (other "The min price transaction did not complete")
    | some hash ↦ ok (min_price_in_qsp * 10 ^ 18)
  ]

-- __check_and_update_min_price: the price that was sent to the contract, if it had to be.
unfoldable pub check_and_update_min_price : ℕ → Answers → Result (Option ℕ)
unfolding update_min_price
check_and_update_min_price min_price_in_qsp answers = do
  contract_price ← answers.min_audit_price
  contract_price_lower_cap ← answers.min_audit_price_lower_cap
  let min_price_in_mini_qsp = min_price_in_qsp * 10 ^ 18
  if ltb min_price_in_mini_qsp contract_price_lower_cap
      then raise (other "The provided min price must be equal to or higher than the floor")
      else if min_price_in_mini_qsp == contract_price
      then ok none
      else (do sent ← update_min_price min_price_in_qsp answers; ok (some sent))

-- What a node that has started has sent, and its database.
pub record Started : Type 0 where
  pub sent_price : Option ℕ
  pub pool : Pool

-- `start`, before its threads; `exec` is the flag of a node that runs already.
unfoldable pub start : Bool → Config → ℕ → Answers → Pool → Result Started
unfolding check_stake check_and_update_min_price timeout_stale_requests
start exec config min_price_in_qsp answers pool =
    if exec
    then raise (other "Cannot run audit node thread due to another audit node thread instance")
    else (do
      checked ← check_stake config answers
      sent_price ← check_and_update_min_price min_price_in_qsp answers
      block_number ← answers.block_number
      pool' ← timeout_stale_requests config block_number pool
      ok (record { sent_price = sent_price; pool = pool' }))
