-- ===== src/Threads/Chain.antt =====
-- What the threads read from the configuration and ask of the chain. The contract's answers and
-- the fate of a transaction come from outside the repository: they are arguments of the handlers,
-- a value or the exception that the call raises.
use qsp_protocol_node.Prelude.{
  ℕ, String, Bool, Option, Result, ok, raise, Exn, key_error, deduplication, not_confirmed, timeout,
  not_enough_stake, report_formatting, value_error, other,
}
use qsp_protocol_node.Evt.Decimal.{Text}

pub record Config : Type 0 where
  pub audit_contract_address : String
  pub n_blocks_confirmation : ℕ
  pub enable_police_audit_polling : Bool
  pub max_assigned_requests : ℕ
  pub submission_timeout_limit_blocks : ℕ
  pub block_discard_on_restart : ℕ

-- The transactions that the threads ask the contract for.
pub data Transaction : Type 0 where
  get_next_audit_request : Transaction
  submit_report : ℕ → Option ℕ → Option Text → Transaction
  submit_police_report : ℕ → Option Text → Bool → Transaction

-- What `str` gives for an exception.
abbrev pub exn_text : Exn → String
exn_text key_error = "KeyError"
exn_text deduplication = "DeduplicationException"
exn_text not_confirmed = "TransactionNotConfirmedException"
exn_text timeout = "Timeout"
exn_text not_enough_stake = "NotEnoughStake"
exn_text report_formatting = "ReportFormattingException"
exn_text (value_error text) = text
exn_text (other text) = text

-- `try: x = call; rest; except Exception: log`, where `stop` is the state at the call.
abbrev pub attempt : {A S : Type 0} → Result A → S → (A → S) → S
attempt (ok a) stop rest = rest a
attempt (raise e) stop rest = stop
