-- ===== src/Config/Settings.antt =====
-- ConfigUtils.resolve_version (config/config_utils.py) and Config.__setup_values (config/config.py).
use Prim.Native.String.{[], ◌∷◌, ◌++◌, count}
use package.text.Mathlib.Text.{starts_with}
use qsp_protocol_node.Prelude.{
  ℕ, zero, suc, ◌-◌, pos, negsuc, String, true, false, none, some, if◌then◌else◌, Result, ok, raise,
  value_error, other, ◌>>=◌,
}
use qsp_protocol_node.Config.Values.{
  Value, is_none, nothing, text, num, flag, mapping, no_entries, config_value, find_entry,
  set_entry,
}

-- `s.replace(old, new)` for a text `old` that is not empty, once `skip` characters of it are over.
unfoldable pub replace : String → String → ℕ → String → String
replace old new skip [] = ""
replace old new (suc skip) (c ∷ s) = replace old new skip s
replace old new zero (c ∷ s) =
    let found = starts_with (c ∷ s) old in
    let rest = replace old new (if found then count old - 1 else 0) s in
    if found then new ++ rest else c ∷ rest

-- `s[0:s.index('.')]`
unfoldable pub before_dot : String → Result String
before_dot [] = raise (value_error "substring not found")
before_dot (c ∷ s) =
    let rest = before_dot s in
    if starts_with (c ∷ s) "." then ok "" else elim rest [ raise e ↦ raise e | ok r ↦ ok (c ∷ r) ]

unfoldable pub resolve_version : String → Value → Result Value
unfolding replace before_dot
resolve_version node_version version = do
  major_version ← before_dot node_version
  elim version [
    | nothing ↦ ok nothing
    | text s ↦ ok (text (replace "{major-version}" major_version 0 s))
    | _ ↦ raise (other "no attribute 'replace'")
  ]

-- What __setup_values reads from outside: dpath.util.get, fetch_file with load_json, and the home of
-- the user.
pub record Reads : Type 0 where
  pub get : Value → String → Result Value
  pub load_json : Value → Result Value
  pub home : String

-- The attributes that __setup_values sets and that are not None or empty in every configuration.
pub record Settings : Type 0 where
  pub audit_contract_name : Value
  pub audit_contract_address : Value
  pub contract_version : Value
  pub audit_contract_abi_uri : Value
  pub eth_provider_name : Value
  pub eth_provider_args : Value
  pub block_discard_on_restart : Value
  pub min_price_in_qsp : Value
  pub tx_timeout_seconds : Value
  pub max_assigned_requests : Value
  pub evt_polling_sec : Value
  pub block_mined_polling_interval_sec : Value
  pub analyzers_config : Value
  pub account_keystore_file : Value
  pub gas_limit : Value
  pub evt_db_path : Value
  pub submission_timeout_limit_blocks : Value
  pub start_n_blocks_in_the_past : Value
  pub n_blocks_confirmation : Value
  pub gas_price_strategy : Value
  pub default_gas_price_wei : Value
  pub gas_price_wei : Value
  pub max_gas_price_wei : Value
  pub upload_provider_name : Value
  pub upload_provider_is_enabled : Value
  pub upload_provider_args : Value
  pub metric_collection_is_enabled : Value
  pub metric_collection_destination_endpoint : Value
  pub metric_collection_interval_seconds : Value
  pub enable_police_audit_polling : Value

-- The metadata of the contract, or None.
unfoldable pub fetch_contract_metadata : Reads → String → Value → Result Value
unfolding resolve_version config_value
fetch_contract_metadata reads node_version cfg = do
  uri ← config_value reads.get cfg "/audit_contract_abi/metadata" nothing true
  metadata_uri ← resolve_version node_version uri
  if is_none metadata_uri then ok nothing else reads.load_json metadata_uri

-- The endpoint's URL with the authentication token in it.
unfoldable pub with_token : Value → Value → Result Value
unfolding replace find_entry set_entry
with_token auth_token (mapping args) = elim (find_entry "endpoint_uri" args) [
  | none ↦ ok (mapping args)
  | some endpoint ↦ elim endpoint [
    | nothing ↦ ok (mapping args)
    | text uri ↦ elim auth_token [
      | nothing ↦
          raise (value_error "Authentication token is missing. Cannot set provider endpoint")
      | text token ↦
          ok (mapping (set_entry "endpoint_uri" (text (replace "${token}" token 0 uri)) args))
      | _ ↦ raise (other "replace() argument 2 must be str")
    ]
    | _ ↦ elim auth_token [
      | nothing ↦
          raise (value_error "Authentication token is missing. Cannot set provider endpoint")
      | _ ↦ raise (other "no attribute 'replace'")
    ]
  ]
]
with_token auth_token _ = raise (other "no attribute 'get'")

unfoldable pub setup_values : Reads → String → Value → Value → Result Settings
unfolding fetch_contract_metadata with_token config_value resolve_version
setup_values reads node_version auth_token cfg = do
  metadata ← fetch_contract_metadata reads node_version cfg
  name ← config_value reads.get metadata "/contractName" nothing true
  address ← config_value reads.get metadata "/contractAddress" nothing true
  version ← config_value reads.get metadata "/version" nothing true
  uri ← config_value reads.get cfg "/audit_contract_abi/uri" nothing true
  abi_uri ← resolve_version node_version uri
  provider ← config_value reads.get cfg "/eth_node/provider" nothing false
  args ← config_value reads.get cfg "/eth_node/args" (mapping no_entries) true
  provider_args ← with_token auth_token args
  discard ← config_value reads.get cfg "/block_discard_on_restart" (num (pos 0)) true
  min_price ← config_value reads.get cfg "/min_price_in_qsp" nothing false
  tx_timeout ← config_value reads.get cfg "/tx_timeout_seconds" nothing false
  max_assigned ← config_value reads.get cfg "/max_assigned_requests" nothing false
  evt_polling ← config_value reads.get cfg "/evt_polling_sec" nothing false
  block_polling ← config_value reads.get cfg "/block_mined_polling_interval_sec" nothing false
  analyzers ← config_value reads.get cfg "/analyzers" nothing false
  keystore ← config_value reads.get cfg "/keystore_file" nothing true
  gas ← config_value reads.get cfg "/gas_limit" nothing true
  db_path ← config_value reads.get cfg "/evt_db_path" (text (reads.home ++ "/.audit_node.db")) true
  submission_timeout ←
      config_value reads.get cfg "/submission_timeout_limit_blocks" (num (pos 10)) true
  start_blocks ← config_value reads.get cfg "/start_n_blocks_in_the_past" (num (pos 0)) true
  confirmation ← config_value reads.get cfg "/n_blocks_confirmation" (num (pos 6)) true
  strategy ← config_value reads.get cfg "/gas_price/strategy" nothing false
  default_price ← config_value reads.get cfg "/gas_price/default_gas_price_wei" (num (pos 0)) true
  max_price ← config_value reads.get cfg "/gas_price/max_gas_price_wei" (num (negsuc 0)) true
  upload_name ← config_value reads.get cfg "/upload_provider/name" (text "") true
  upload_enabled ← config_value reads.get cfg "/upload_provider/is_enabled" (flag false) true
  upload_args ← config_value reads.get cfg "/upload_provider/args" (mapping no_entries) true
  metrics_enabled ← config_value reads.get cfg "/metric_collection/is_enabled" (flag false) true
  metrics_endpoint ←
      config_value reads.get cfg "/metric_collection/destination_endpoint" nothing true
  metrics_interval ←
      config_value reads.get cfg "/metric_collection/interval_seconds" (num (pos 30)) true
  police ← config_value reads.get cfg "/police/is_auditing_enabled" (flag false) true
  ok (record {
    audit_contract_name = name;
    audit_contract_address = address;
    contract_version = version;
    audit_contract_abi_uri = abi_uri;
    eth_provider_name = provider;
    eth_provider_args = provider_args;
    block_discard_on_restart = discard;
    min_price_in_qsp = min_price;
    tx_timeout_seconds = tx_timeout;
    max_assigned_requests = max_assigned;
    evt_polling_sec = evt_polling;
    block_mined_polling_interval_sec = block_polling;
    analyzers_config = analyzers;
    account_keystore_file = keystore;
    gas_limit = gas;
    evt_db_path = db_path;
    submission_timeout_limit_blocks = submission_timeout;
    start_n_blocks_in_the_past = start_blocks;
    n_blocks_confirmation = confirmation;
    gas_price_strategy = strategy;
    default_gas_price_wei = default_price;
    gas_price_wei = default_price;
    max_gas_price_wei = max_price;
    upload_provider_name = upload_name;
    upload_provider_is_enabled = upload_enabled;
    upload_provider_args = upload_args;
    metric_collection_is_enabled = metrics_enabled;
    metric_collection_destination_endpoint = metrics_endpoint;
    metric_collection_interval_seconds = metrics_interval;
    enable_police_audit_polling = police;
  })
