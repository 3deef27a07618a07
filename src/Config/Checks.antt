-- ===== src/Config/Checks.antt =====
-- ConfigUtils.check_audit_contract_settings and check_configuration_settings (config/config_utils.py).
pub mod Sane
use qsp_protocol_node.Prelude.{
  ℕ, ◌*◌, ℤ, pos, negsuc, Bool, true, false, not, ◌&&◌, ◌||◌, List, [], ◌∷◌, if◌then◌else◌, Result,
  ok, raise, other, ◌>>=◌,
}
use qsp_protocol_node.Config.Values.{Value, num, is_true, greater}
use qsp_protocol_node.Config.Settings.{Settings}
use qsp_protocol_node.Config.Client.{is_text}

unfoldable pub raise_err : Bool → Result (Unit {0})
raise_err cond = if cond then raise (other "Cannot initialize QSP node.") else ok tt

unfoldable pub check_audit_contract_settings : Settings → Result (Unit {0})
unfolding raise_err is_true
check_audit_contract_settings config =
    if is_true config.audit_contract_abi_uri
    then raise_err
        (not (is_true config.audit_contract_abi_uri && is_true config.audit_contract_address))
    else raise_err true

-- What the contract answers.
pub record Limits : Type 0 where
  pub audit_timeout_in_blocks : Result ℕ
  pub max_assigned_requests : Result ℕ

-- `raise_err(a > b)`
unfoldable pub raise_if_greater : Value → Value → Result (Unit {0})
unfolding greater raise_err
raise_if_greater a b = do cond ← greater a b; raise_err cond

-- The loop over the analyzers, by their timeouts. A block takes about twelve seconds.
unfoldable pub check_timeouts : ℕ → List Value → Result (Unit {0})
unfolding raise_if_greater
check_timeouts contract_audit_timeout_in_blocks [] = ok tt
check_timeouts contract_audit_timeout_in_blocks (analyzer_timeout ∷ timeouts) = do
  checked ← raise_if_greater analyzer_timeout (num (pos (contract_audit_timeout_in_blocks * 12)))
  check_timeouts contract_audit_timeout_in_blocks timeouts

-- The default gas price, if there is a maximum.
unfoldable pub check_gas_price : Settings → Result (Unit {0})
unfolding greater raise_if_greater
check_gas_price config = do
  limited ← greater config.max_gas_price_wei (num (pos 0))
  if limited then raise_if_greater config.default_gas_price_wei config.max_gas_price_wei else ok tt

unfoldable pub check_strategy : Settings → Result (Unit {0})
unfolding raise_err
check_strategy config = raise_err (
    not (is_text config.gas_price_strategy "dynamic" || is_text config.gas_price_strategy "static"))

unfoldable pub check_configuration_settings : Settings → List Value → Limits → Result (Unit {0})
unfolding raise_if_greater check_timeouts check_gas_price check_strategy
check_configuration_settings config timeouts limits = do
  contract_audit_timeout_in_blocks ← limits.audit_timeout_in_blocks
  contract_max_assigned_requests ← limits.max_assigned_requests
  past ← raise_if_greater config.start_n_blocks_in_the_past config.submission_timeout_limit_blocks
  late ←
      raise_if_greater config.submission_timeout_limit_blocks
        (num (pos contract_audit_timeout_in_blocks))
  slow ← check_timeouts contract_audit_timeout_in_blocks timeouts
  many ← raise_if_greater config.max_assigned_requests (num (pos contract_max_assigned_requests))
  costly ← check_gas_price config
  unknown ← check_strategy config
  deep ← raise_if_greater config.n_blocks_confirmation (num (pos 50))
  raise_if_greater (num (pos 0)) config.n_blocks_confirmation
