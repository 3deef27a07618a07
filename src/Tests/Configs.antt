-- ===== src/Tests/Configs.antt =====
-- A configuration of the required settings is loaded, for a contract whose audits may take 40 blocks.
use qsp_protocol_node.Report.Bits.{to_bitstring}
use qsp_protocol_node.Report.Types.{initialize_vulnerability_types}
use qsp_protocol_node.Prelude.{
  ℕ, ◌≡◌, refl, ◌↔◌, ◌<◌, pos, String, true, false, none, some, [], ◌∷◌, Result, ok, raise,
  key_error, other, ◌==◌,
}
use qsp_protocol_node.Config.Values.{
  Value, nothing, text, num, sequence, mapping, end, item, Entries, no_entries, entry, find_entry,
}
use qsp_protocol_node.Config.Settings.{Settings, setup_values}
use qsp_protocol_node.Config.Client.{
  http_provider, Web3, account_of, create_web3_client, create_web3_client-ends,
}
use qsp_protocol_node.Config.Checks.{check_configuration_settings}
use qsp_protocol_node.Config.Checks.Sane.{IsSane, check_configuration_settings_iff}
use qsp_protocol_node.Config.Analyzers.{AnalyzerSettings, create_analyzers}
use qsp_protocol_node.Config.Components.{
  World, Addresses, Components, Config, create_components, load_dictionary, node_version,
}
use qsp_protocol_node.Config.Components.Loaded.{IsLoaded, Canonizes, load_dictionary-IsLoaded}
use qsp_protocol_node.Config.Components.Unchecked.{create_components-unchecked}

-- The entries by their paths.
abbrev file : Entries
file = entry "/audit_contract_abi/metadata" (text "https://s3/{major-version}/meta.json") (
    entry "/audit_contract_abi/uri" (text "https://s3/{major-version}/abi.json") (
      entry "/eth_node/provider" (text "HTTPProvider") (
        entry "/min_price_in_qsp" (num (pos 1000)) (
          entry "/tx_timeout_seconds" (num (pos 300)) (
            entry "/max_assigned_requests" (num (pos 1)) (
              entry "/evt_polling_sec" (num (pos 15)) (
                entry "/block_mined_polling_interval_sec" (num (pos 5)) (
                  entry "/analyzers" (sequence end) (
                    entry "/keystore_file" (text "/keys/k.json")
                      (entry "/gas_price/strategy" (text "static") no_entries))))))))))

abbrev metadata : Value
metadata = mapping (entry "/contractAddress" (text "0xC1") no_entries)

get : Value → String → Result Value
get (mapping entries) path = elim (find_entry path entries) [
  | none ↦ raise key_error
  | some v ↦ ok v
]
get _ path = raise key_error

abbrev canonical : Addresses
canonical = record {
  is_address = λ address. true;
  is_checksum_address = λ address. elim address [ text s ↦ true | _ ↦ false ];
  to_checksum_address = λ address. text "0xC1";
}

abbrev third_connects : Web3
third_connects = record {
  connects = λ n. n == 2;
  first_account = raise (other "no accounts");
  decrypt = λ keystore password. ok ("0xa1", "key");
}

abbrev world : World
world = record {
  reads = record { get = get; load_json = λ uri. ok metadata; home = "/root" };
  construct = λ provider. ok tt;
  web3 = third_connects;
  addresses = canonical;
  create_contract = λ uri address. ok tt;
  limits = record { audit_timeout_in_blocks = ok 40; max_assigned_requests = ok 2 };
  temp = "/tmp";
  open_pool = λ path. ok tt;
  vulnerability_names = ok ("call_stack_depth" ∷ "reentrancy" ∷ []);
}

create_web3_client-ends_example :
    ((n : ℕ)
      → n < 30
      → (n == 2) ≡ true
      → create_web3_client third_connects (http_provider nothing) (text "") (text "/keys/k.json") 30
        ≡ account_of third_connects (http_provider nothing) (text "") (text "/keys/k.json"))
    × (((i : ℕ) → i < 30 → (i == 2) ≡ false)
        → create_web3_client third_connects
            (http_provider nothing)
            (text "")
            (text "/keys/k.json")
            30
          ≡ raise (other "Could not connect to ethereum node"))
create_web3_client-ends_example =
    create_web3_client-ends third_connects (http_provider nothing) (text "") (text "/keys/k.json")
      30

abbrev no_settings : Settings
no_settings = record {
  audit_contract_name = nothing;
  audit_contract_address = nothing;
  contract_version = nothing;
  audit_contract_abi_uri = nothing;
  eth_provider_name = nothing;
  eth_provider_args = nothing;
  block_discard_on_restart = nothing;
  min_price_in_qsp = nothing;
  tx_timeout_seconds = nothing;
  max_assigned_requests = nothing;
  evt_polling_sec = nothing;
  block_mined_polling_interval_sec = nothing;
  analyzers_config = nothing;
  account_keystore_file = nothing;
  gas_limit = nothing;
  evt_db_path = nothing;
  submission_timeout_limit_blocks = nothing;
  start_n_blocks_in_the_past = nothing;
  n_blocks_confirmation = nothing;
  gas_price_strategy = nothing;
  default_gas_price_wei = nothing;
  gas_price_wei = nothing;
  max_gas_price_wei = nothing;
  upload_provider_name = nothing;
  upload_provider_is_enabled = nothing;
  upload_provider_args = nothing;
  metric_collection_is_enabled = nothing;
  metric_collection_destination_endpoint = nothing;
  metric_collection_interval_seconds = nothing;
  enable_police_audit_polling = nothing;
}

abbrev or_else : {A : Type 0} → A → Result A → A
or_else a (ok b) = b
or_else a _ = a

abbrev settings : Settings
settings = or_else no_settings (setup_values world.reads node_version (text "") (mapping file))

check_configuration_settings_iff_example :
    (check_configuration_settings settings [] world.limits ≡ ok tt) ↔ IsSane settings [] 40 2
check_configuration_settings_iff_example =
    check_configuration_settings_iff settings [] world.limits 40 2 refl refl

canonizes : Canonizes canonical
canonizes address h = (refl, refl)

abbrev components : Result Components
components = create_components world settings (text "") true

created : (c : Components) × (components ≡ ok c)
unfolding create_components setup_values get initialize_vulnerability_types to_bitstring
created = (_, refl)

loaded : (c : Config) × (load_dictionary world (mapping file) (text "") (text "") true ≡ ok c)
unfolding load_dictionary get initialize_vulnerability_types to_bitstring
loaded = (_, refl)

load_dictionary-IsLoaded_example : IsLoaded world loaded.0
load_dictionary-IsLoaded_example =
    load_dictionary-IsLoaded world (mapping file) (text "") (text "") loaded.0 canonizes loaded.1

-- An analyzer that is given an hour, where the contract gives 480 seconds.
abbrev slow : Value
slow = sequence (
    item
      (mapping
        (entry "mythril" (mapping (entry "timeout_sec" (num (pos 3600)) no_entries)) no_entries))
      end)

abbrev mythril : AnalyzerSettings
mythril = record {
  analyzer_name = "mythril";
  args = text "";
  storage_dir = text "/tmp";
  timeout_sec = num (pos 3600);
}

slow_created : create_analyzers "/root" "/tmp" slow ≡ ok (mythril ∷ [])
unfolding create_analyzers
slow_created = refl

create_components-unchecked_example :
    create_components world (record settings { analyzers_config = slow }) (text "") true
    ≡ ok (record created.0 { analyzers = mythril ∷ [] })
create_components-unchecked_example =
    create_components-unchecked world settings (text "") slow true created.0 (mythril ∷ [])
      created.1 slow_created
