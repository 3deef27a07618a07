-- ===== src/Tests/Chain.antt =====
-- Transactions that are retried, rewards that are claimed, and a node that starts.
use qsp_protocol_node.Pool.Rows.{select}
use qsp_protocol_node.Prelude.{
  pos, ℤ, ◌≤ℤ◌, is_greater, ℕ, ◌+◌, ◌*◌, ◌^◌, ◌≡◌, ◌≢◌, ◌≤◌, refl, String, true, false, none, some,
  List, [], ◌∷◌, arith, str_eq, ◌⊎◌, inr, Result, ok, raise, value_error, if◌then◌else◌, ◌==◌, leb,
}
use qsp_protocol_node.Pool.Manager.{Pool, get_events_to_be_processed, get_events_to_be_submitted}
use qsp_protocol_node.Threads.Chain.{Config}
use qsp_protocol_node.Threads.Restart.{timeout_stale_requests}
use qsp_protocol_node.Eth.Args.{Account, Args, mk_args}
use qsp_protocol_node.Eth.Send.{Web3, Waiting, send_signed_transaction, send}
use qsp_protocol_node.Eth.Send.Retries.{Outcome, send_signed_transaction-Outcome}
use qsp_protocol_node.Eth.Confirm.{View, wait_for_confirmed_transaction_receipt}
use qsp_protocol_node.Eth.Confirm.Ends.{Ended, wait_for_confirmed_transaction_receipt-ends}
use qsp_protocol_node.Threads.Rewards
use qsp_protocol_node.Threads.Rewards.{claim_rewards_if_available}
use qsp_protocol_node.Threads.Rewards.Drained.{
  Stopped, Claimed, claim_rewards-Stopped, claim_rewards-ends,
}
use qsp_protocol_node.Threads.GasPrice.{
  GasConfig, IsAsked, compute_gas_price, compute_gas_price-bounded,
}
use qsp_protocol_node.Threads.Perform.Outcome.{
  LocalReport, compute_audit_result, compute_audit_result_lem, any,
}
use qsp_protocol_node.Node.Start
use qsp_protocol_node.Node.Start.{Started, start}
use qsp_protocol_node.Node.Start.Checked.{MayRun, HasPrice, start-Checked}

abbrev account : Account
account = record {
  account = "0xa1";
  account_private_key = some "key";
  gas_limit = none;
  gas_price_wei = pos 4;
}

-- The first attempt has a nonce that is taken.
abbrev taken_nonce : Web3
taken_nonce = record {
  mentions = λ e text. str_eq e text;
  transact = λ args. ok none;
  first_transaction_count = ok 5;
  transaction_count = λ i. ok 6;
  send_raw = λ i args. if i == 0 then raise (value_error "nonce too low") else ok "0xbeef";
  wait_for_transaction_receipt = λ i tx_hash. ok true;
  confirm = λ i tx_hash. ok true;
}

abbrev no_wait : Waiting
no_wait = record { wait_for_transaction_receipt = false; n_blocks_confirmation = 6 }

sent_again : send_signed_transaction account taken_nonce no_wait 10 ≡ ok (some "0xbeef")
unfolding send_signed_transaction send
sent_again = refl

send_signed_transaction-Outcome_example :
    (args : Args) × (nonce : ℕ) × (mk_args account ≡ ok args)
    × (◌≡◌ {A = Result ℕ} (ok 5) (ok nonce))
    × Outcome taken_nonce no_wait args 0 10 nonce (some "0xbeef")
send_signed_transaction-Outcome_example =
    send_signed_transaction-Outcome account taken_nonce no_wait 10 "key" (some "0xbeef") refl
      (omega arith) sent_again

-- A chain that mines a block to a round, with the receipt in block 103.
abbrev views : ℕ → View
views i = record { block_number = ok (100 + i); receipt = ok (if leb 3 i then some 103 else none) }

wait_for_confirmed_transaction_receipt-ends_example :
    (result : Result (Unit {0})) × (wait_for_confirmed_transaction_receipt 2
        (ok 100)
        (ok 100)
        views
        9
      ≡ some result)
    × Ended 2 106 views 100 result
wait_for_confirmed_transaction_receipt-ends_example =
    wait_for_confirmed_transaction_receipt-ends 2 100 100 views 7 107 refl (omega arith)

-- Two rewards, and then none.
abbrev two_rewards : Rewards.Answers
two_rewards = record {
  has_available_rewards = λ i. ok (if leb 2 i then false else true);
  send_signed_transaction = λ i. ok (some "0xc1");
  exec = λ i. true;
}

two_claimed : claim_rewards_if_available two_rewards 3 ≡ some (ok 2)
unfolding claim_rewards_if_available
two_claimed = refl

claim_rewards-Stopped_example : Stopped two_rewards 2 × Claimed two_rewards 0 2
claim_rewards-Stopped_example = claim_rewards-Stopped two_rewards 3 2 two_claimed

claim_rewards-ends_example : claim_rewards_if_available two_rewards 3 ≢ none
claim_rewards-ends_example = claim_rewards-ends two_rewards 2 (inr refl)

abbrev dynamic : GasConfig
dynamic = record {
  gas_price_strategy = "dynamic";
  default_gas_price_wei = pos 4;
  max_gas_price_wei = pos 20;
  gas_price_wei = pos 0;
}

abbrev capped_config : GasConfig
capped_config = record dynamic { gas_price_wei = pos 20 }

capped : compute_gas_price dynamic (ok 50) ≡ ok (record dynamic { gas_price_wei = pos 20 })
unfolding compute_gas_price
capped = refl

compute_gas_price-bounded_example :
    (price : ℤ) × IsAsked dynamic (ok 50) price
    × (capped_config ≡ record dynamic { gas_price_wei = pos 20 })
    × (((is_greater (pos 20) (pos 0) ≡ true)
          × (20 ≤ 20)
          × (price ≤ℤ pos 20 → pos 20 ≡ price)
          × (is_greater price (pos 20) ≡ true → pos 20 ≡ pos 20))
        ⊎ ((20 ≤ 0) × (pos 20 ≡ pos 20)))
compute_gas_price-bounded_example =
    compute_gas_price-bounded dynamic (record dynamic { gas_price_wei = pos 20 }) (ok 50)
      (omega arith) capped

abbrev one_failed : List (String × LocalReport)
one_failed =
    (
      "oyente",
      record {
        analyzer = some "oyente";
        status = some "success";
        errors = [];
        potential_vulnerabilities = none;
      },
    )
    ∷ (
      "mythril",
      record { analyzer = none; status = none; errors = []; potential_vulnerabilities = none },
    )
    ∷ []

compute_audit_result_lem_example : compute_audit_result one_failed ≡ (5, "error")
unfolding any
compute_audit_result_lem_example = compute_audit_result_lem one_failed

abbrev config : Config
config = record {
  audit_contract_address = "0xa7";
  n_blocks_confirmation = 6;
  enable_police_audit_polling = false;
  max_assigned_requests = 1;
  submission_timeout_limit_blocks = 25;
  block_discard_on_restart = 2;
}

-- A staked node whose price on the contract is another.
abbrev staked : Start.Answers
staked = record {
  is_police_node = ok false;
  has_enough_stake = ok true;
  min_audit_price = ok 7;
  min_audit_price_lower_cap = ok 1;
  send_price = λ price. ok (some "0xd2");
  block_number = ok 100;
}

abbrev empty_pool : Pool
empty_pool = record { rows = []; closed = false }

abbrev started : Started
started = record { sent_price = some (3 * 10 ^ 18); pool = empty_pool }

node_starts : start false config 3 staked empty_pool ≡ ok started
unfolding start get_events_to_be_processed select get_events_to_be_submitted
node_starts = refl

start-Checked_example :
    (false ≡ false)
    × MayRun config staked
    × HasPrice (3 * 10 ^ 18) staked started.sent_price
    × ((cap : ℕ) × (◌≡◌ {A = Result ℕ} (ok 1) (ok cap)) × (cap ≤ 3 * 10 ^ 18))
    × ((block : ℕ) × (◌≡◌ {A = Result ℕ} (ok 100) (ok block))
        × (timeout_stale_requests config block empty_pool ≡ ok empty_pool))
start-Checked_example = start-Checked false config 3 staked empty_pool started node_starts
