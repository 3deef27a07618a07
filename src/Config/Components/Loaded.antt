-- ===== src/Config/Components/Loaded.antt =====
-- What holds of a configuration that was loaded with its settings checked.
use qsp_protocol_node.Prelude.{
  ℕ, ◌≡◌, refl, Bool, true, false, [], ok, >>=-eq-ok, ok-injective, ap, sym, ◌∙◌, Bool-cases, inl,
  inr, arith, subst,
}
use qsp_protocol_node.Report.Types.{initialize_vulnerability_types}
use qsp_protocol_node.Report.Vulnerabilities.RoundTrip.{AreTypes, initialize-AreTypes}
use qsp_protocol_node.Config.Values.{
  Value, nothing, text, num, flag, sequence, mapping, is_none, is_true,
}
use qsp_protocol_node.Config.Settings.{Settings, setup_values}
use qsp_protocol_node.Config.Client.{create_eth_provider, create_web3_client}
use qsp_protocol_node.Config.Checks.{
  raise_err, check_audit_contract_settings, check_configuration_settings,
}
use qsp_protocol_node.Config.Checks.Sane.{IsSane, check_configuration_settings_iff}
use qsp_protocol_node.Config.Analyzers.{create_analyzers}
use qsp_protocol_node.Config.Components.{
  Addresses, mk_checksum_address, World, Connected, Components, create_audit_contract,
  connected_components, create_components, Config, node_version, load_dictionary,
}
use qsp_protocol_node.Upload.{create_upload_provider}

-- An address in its canonical form.
abbrev pub IsCanonical : Addresses → Value → Type 0
IsCanonical addresses address =
    (is_none address ≡ false) × (addresses.is_checksum_address address ≡ true)

-- web3 writes an address in its canonical form, which is a text.
abbrev pub Canonizes : Addresses → Type 0
Canonizes addresses =
    (address : Value)
    → addresses.is_address address ≡ true
    → IsCanonical addresses (addresses.to_checksum_address address)

mk_checksum-IsCanonical :
    (addresses : Addresses) (address address' : Value)
    → Canonizes addresses
    → is_none address ≡ false
    → mk_checksum_address addresses address ≡ ok address'
    → IsCanonical addresses address'
unfolding mk_checksum_address
mk_checksum-IsCanonical addresses address address' canonizes some_address h =
    let h₀ = rw some_address at h in
    elim (Bool-cases (addresses.is_address address)) [
      | inr other ↦ absurd (let e = rw other at h₀ in cc)
      | inl valid ↦
          let h₁ = rw valid at h₀ in
          elim (Bool-cases (addresses.is_checksum_address address)) [
            | inl canonical ↦
                subst (IsCanonical addresses) (ok-injective (rw canonical at h₁))
                  (some_address, canonical)
            | inr other ↦
                subst (IsCanonical addresses) (ok-injective (rw other at h₁))
                  (canonizes address valid)
          ]
    ]

audit_contract_settings-ok :
    (config : Settings)
    → check_audit_contract_settings config ≡ ok tt
    → (is_true config.audit_contract_abi_uri ≡ true)
      × (is_true config.audit_contract_address ≡ true)
unfolding check_audit_contract_settings raise_err
audit_contract_settings-ok config h = ground arith

is_true-is_none : (v : Value) → is_true v ≡ true → is_none v ≡ false
unfolding is_true
is_true-is_none nothing h = cc
is_true-is_none (text s) h = refl
is_true-is_none (num n) h = refl
is_true-is_none (flag b) h = refl
is_true-is_none (sequence vs) h = refl
is_true-is_none (mapping es) h = refl

-- What the checks of a configuration give it.
pub record IsLoaded (world : World) (config : Config) : Type 0 where
  pub blocks : ℕ
  pub requests : ℕ
  pub blocks_eq : world.limits.audit_timeout_in_blocks ≡ ok blocks
  pub requests_eq : world.limits.max_assigned_requests ≡ ok requests
  pub sane : IsSane config.settings [] blocks requests
  pub address : IsCanonical world.addresses config.components.connected.audit_contract_address
  pub account : IsCanonical world.addresses config.components.connected.account
  pub contract : config.components.connected.has_audit_contract ≡ true
  pub types : AreTypes config.components.vulnerability_types

settings_checked :
    (world : World) (config : Settings)
    → check_configuration_settings config [] world.limits ≡ ok tt
    → (blocks requests : ℕ) × (world.limits.audit_timeout_in_blocks ≡ ok blocks)
      × (world.limits.max_assigned_requests ≡ ok requests)
      × IsSane config [] blocks requests
unfolding check_configuration_settings
settings_checked world config h =
    let (blocks, b, h₁) = >>=-eq-ok world.limits.audit_timeout_in_blocks _ h in
    let (requests, r, h₂) = >>=-eq-ok world.limits.max_assigned_requests _ h₁ in
    (
      blocks,
      requests,
      b,
      r,
      (check_configuration_settings_iff config [] world.limits blocks requests b r).0 h,
    )

audit_contract-created :
    (world : World) (config : Settings) (address : Value) (b : Bool)
    → is_true config.audit_contract_abi_uri ≡ true
    → create_audit_contract world config address ≡ ok b
    → b ≡ true
unfolding create_audit_contract
audit_contract-created world config address b has_abi h =
    let (u, c, h₁) =
      >>=-eq-ok (world.create_contract config.audit_contract_abi_uri address) _ (rw has_abi at h) in
    sym (ok-injective h₁)

-- What of it the client and the contract give.
record IsConnected (world : World) (config : Settings) (connected : Connected) : Type 0 where
  blocks : ℕ
  requests : ℕ
  blocks_eq : world.limits.audit_timeout_in_blocks ≡ ok blocks
  requests_eq : world.limits.max_assigned_requests ≡ ok requests
  sane : IsSane config [] blocks requests
  address : IsCanonical world.addresses connected.audit_contract_address
  account : IsCanonical world.addresses connected.account
  contract : connected.has_audit_contract ≡ true

connected-IsConnected :
    (world : World) (config : Settings) (account_passwd : Value) (connected : Connected)
    → Canonizes world.addresses
    → connected_components world config account_passwd true ≡ ok connected
    → IsConnected world config connected
unfolding connected_components
connected-IsConnected world config account_passwd connected canonizes h =
    let (provider, p, h₁) =
      >>=-eq-ok
        (create_eth_provider world.construct config.eth_provider_name config.eth_provider_args) _
        h in
    let (client, w, h₂) =
      >>=-eq-ok
        (create_web3_client world.web3 provider account_passwd config.account_keystore_file 30) _
        h₁ in
    let (u, c, h₃) = >>=-eq-ok (check_audit_contract_settings config) _ h₂ in
    let (address, a, h₄) =
      >>=-eq-ok (mk_checksum_address world.addresses config.audit_contract_address) _ h₃ in
    let (account, b, h₅) = >>=-eq-ok (mk_checksum_address world.addresses (text client.0)) _ h₄ in
    let (has, d, h₆) = >>=-eq-ok (create_audit_contract world config address) _ h₅ in
    let (v, e, h₇) = >>=-eq-ok (check_configuration_settings config [] world.limits) _ h₆ in
    let (has_abi, has_address) = audit_contract_settings-ok config c in
    let (blocks, requests, l₁, l₂, sane) = settings_checked world config e in
    let same = ok-injective h₇ in
    subst (IsConnected world config) same (record {
      blocks = blocks;
      requests = requests;
      blocks_eq = l₁;
      requests_eq = l₂;
      sane = sane;
      address =
          mk_checksum-IsCanonical world.addresses config.audit_contract_address address canonizes
            (is_true-is_none _ has_address) a;
      account = mk_checksum-IsCanonical world.addresses (text client.0) account canonizes refl b;
      contract = audit_contract-created world config address has has_abi d;
    })

-- A configuration that was loaded with its settings checked has settings that fit the contract, the
-- canonical addresses of the contract and of its account, the contract itself, and a table of
-- vulnerabilities in which each bitstring stands for its name. Of web3 it is supposed that it writes
-- addresses in their canonical form.
pub load_dictionary-IsLoaded :
    (world : World) (config_dictionary account_passwd auth_token : Value) (config : Config)
    → Canonizes world.addresses
    → load_dictionary world config_dictionary account_passwd auth_token true ≡ ok config
    → IsLoaded world config
unfolding load_dictionary create_components
load_dictionary-IsLoaded world config_dictionary account_passwd auth_token config canonizes h =
    let (settings, s, h₁) =
      >>=-eq-ok (setup_values world.reads node_version auth_token config_dictionary) _ h in
    let (components, c, h₂) =
      >>=-eq-ok (create_components world settings account_passwd true) _ h₁ in
    let (connected, d, c₁) =
      >>=-eq-ok (connected_components world settings account_passwd true) _ c in
    let (analyzers, a, c₂) =
      >>=-eq-ok (create_analyzers world.reads.home world.temp settings.analyzers_config) _ c₁ in
    let (pool, p, c₃) = >>=-eq-ok (world.open_pool settings.evt_db_path) _ c₂ in
    let (names, n, c₄) = >>=-eq-ok world.vulnerability_names _ c₃ in
    let (types, t, c₅) = >>=-eq-ok (initialize_vulnerability_types names) _ c₄ in
    let (upload, u, c₆) =
      >>=-eq-ok
        (create_upload_provider connected.account settings.upload_provider_name
          settings.upload_provider_args (is_true settings.upload_provider_is_enabled))
        _ c₅ in
    let k = connected-IsConnected world settings account_passwd connected canonizes d in
    let same : record { settings = settings; components = components } ≡ config = ok-injective h₂ in
    let parts = ok-injective c₆ in
    subst (IsLoaded world)
      (ap (λ (x : Components). record { settings = settings; components = x }) parts ∙ same)
      (record {
        blocks = k.blocks;
        requests = k.requests;
        blocks_eq = k.blocks_eq;
        requests_eq = k.requests_eq;
        sane = k.sane;
        address = k.address;
        account = k.account;
        contract = k.contract;
        types = initialize-AreTypes names types t;
      })
