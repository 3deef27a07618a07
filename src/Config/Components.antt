-- ===== src/Config/Components.antt =====
-- Config.__create_components and load_dictionary (config/config.py), and mk_checksum_address
-- (utils/eth/address.py).
pub mod Loaded
pub mod Unchecked
use qsp_protocol_node.Prelude.{
  ℕ, String, Bool, true, false, not, Option, none, some, List, [], if◌then◌else◌, Result, ok, raise,
  value_error, ◌>>=◌,
}
use qsp_protocol_node.Report.Types.{VulnerabilityTypes, initialize_vulnerability_types}
use qsp_protocol_node.Upload.{UploadProvider, create_upload_provider}
use qsp_protocol_node.Config.Values.{Value, nothing, text, is_none, is_true}
use qsp_protocol_node.Config.Settings.{Reads, Settings, setup_values}
use qsp_protocol_node.Config.Client.{Provider, Web3, create_eth_provider, create_web3_client}
use qsp_protocol_node.Config.Checks.{
  Limits, check_audit_contract_settings, check_configuration_settings,
}
use qsp_protocol_node.Config.Analyzers.{AnalyzerSettings, create_analyzers}

-- The functions on addresses of web3.
pub record Addresses : Type 0 where
  pub is_address : Value → Bool
  pub is_checksum_address : Value → Bool
  pub to_checksum_address : Value → Value

unfoldable pub mk_checksum_address : Addresses → Value → Result Value
mk_checksum_address addresses address =
    if is_none address
    then ok nothing
    else if not (addresses.is_address address)
    then raise (value_error "Argument is not a valid address")
    else if not (addresses.is_checksum_address address)
    then ok (addresses.to_checksum_address address)
    else ok address

-- What the components ask for outside: web3, the contract (create_contract says whether its ABI is
-- read), the temporary directory, the database file, and the names of the vulnerabilities.
pub record World : Type 0 where
  pub reads : Reads
  pub construct : Provider → Result (Unit {0})
  pub web3 : Web3
  pub addresses : Addresses
  pub create_contract : Value → Value → Result (Unit {0})
  pub limits : Limits
  pub temp : String
  pub open_pool : Value → Result (Unit {0})
  pub vulnerability_names : Result (List String)

-- The client and the contract, once the settings are checked.
pub record Connected : Type 0 where
  pub eth_provider : Provider
  pub audit_contract_address : Value
  pub account : Value
  pub account_private_key : Option String
  pub has_audit_contract : Bool

pub record Components : Type 0 where
  pub connected : Connected
  pub analyzers : List AnalyzerSettings
  pub vulnerability_types : VulnerabilityTypes
  pub upload_provider : UploadProvider

-- create_contract, if there is an ABI.
unfoldable pub create_audit_contract : World → Settings → Value → Result Bool
create_audit_contract world config address =
    if is_true config.audit_contract_abi_uri
    then (do created ← world.create_contract config.audit_contract_abi_uri address; ok true)
    else ok false

-- __create_components up to its checks: at that time the list of analyzers is still empty.
unfoldable pub connected_components : World → Settings → Value → Bool → Result Connected
unfolding create_eth_provider create_web3_client check_audit_contract_settings mk_checksum_address
    create_audit_contract check_configuration_settings
connected_components world config account_passwd validate_contract_settings = do
  eth_provider ←
      create_eth_provider world.construct config.eth_provider_name config.eth_provider_args
  client ← create_web3_client world.web3 eth_provider account_passwd config.account_keystore_file 30
  contract_checked ←
      if validate_contract_settings then check_audit_contract_settings config else ok tt
  audit_contract_address ← mk_checksum_address world.addresses config.audit_contract_address
  account ← mk_checksum_address world.addresses (text client.0)
  has_audit_contract ← create_audit_contract world config audit_contract_address
  checked ←
      if validate_contract_settings
      then check_configuration_settings config [] world.limits
      else ok tt
  ok (record {
    eth_provider = eth_provider;
    audit_contract_address = audit_contract_address;
    account = account;
    account_private_key = client.1;
    has_audit_contract = has_audit_contract;
  })

unfoldable pub create_components : World → Settings → Value → Bool → Result Components
unfolding connected_components create_analyzers create_upload_provider
create_components world config account_passwd validate_contract_settings = do
  connected ← connected_components world config account_passwd validate_contract_settings
  analyzers ← create_analyzers world.reads.home world.temp config.analyzers_config
  event_pool_manager ← world.open_pool config.evt_db_path
  names ← world.vulnerability_names
  report_encoder ← initialize_vulnerability_types names
  upload_provider ←
      create_upload_provider connected.account config.upload_provider_name
        config.upload_provider_args (is_true config.upload_provider_is_enabled)
  ok (record {
    connected = connected;
    analyzers = analyzers;
    vulnerability_types = report_encoder;
    upload_provider = upload_provider;
  })

-- A configuration that is loaded.
pub record Config : Type 0 where
  pub settings : Settings
  pub components : Components

abbrev pub node_version : String
node_version = "2.0.4"

unfoldable pub load_dictionary : World → Value → Value → Value → Bool → Result Config
unfolding setup_values create_components
load_dictionary world config_dictionary account_passwd auth_token validate_contract_settings = do
  settings ← setup_values world.reads node_version auth_token config_dictionary
  components ← create_components world settings account_passwd validate_contract_settings
  ok (record { settings = settings; components = components })
