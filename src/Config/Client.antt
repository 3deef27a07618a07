-- ===== src/Config/Client.antt =====
-- ConfigUtils.create_eth_provider and create_web3_client (config/config_utils.py). web3 is a
-- parameter: the construction of a provider, the attempts to reach the node, and its accounts.
use qsp_protocol_node.Prelude.{
  ℕ, zero, suc, ◌+◌, ◌≤◌, ◌<◌, ◌≡◌, refl, String, Bool, true, false, Option, none, some,
  if◌then◌else◌, str_eq, arith, Result, ok, raise, other, ◌>>=◌, Bool-cases, inl, inr,
}
use qsp_protocol_node.Config.Values.{Value, text, is_none}

pub data Provider : Type 0 where
  http_provider ipc_provider : Value → Provider
  ethereum_tester_provider : Provider

abbrev pub is_text : Value → String → Bool
is_text (text s) t = str_eq s t
is_text _ t = false

-- `construct` says whether the class takes the arguments.
unfoldable pub create_eth_provider :
    (Provider → Result (Unit {0})) → Value → Value → Result Provider
create_eth_provider construct provider args =
    if is_text provider "HTTPProvider"
    then (do done ← construct (http_provider args); ok (http_provider args))
    else if is_text provider "IPCProvider"
    then (do done ← construct (ipc_provider args); ok (ipc_provider args))
    else if is_text provider "EthereumTesterProvider"
    then (do done ← construct ethereum_tester_provider; ok ethereum_tester_provider)
    else raise (other "Unknown/Unsupported provider")

abbrev is_tester : Provider → Bool
is_tester ethereum_tester_provider = true
is_tester _ = false

-- `connects n`: whether `eth.accounts` answers at attempt n. The first account, and what a keystore file
-- and a password give: an address and its private key.
pub record Web3 : Type 0 where
  pub connects : ℕ → Bool
  pub first_account : Result String
  pub decrypt : Value → Value → Result (String × String)

-- The loop, by the attempts that are left: the number of the attempt that connects.
unfoldable pub connect : (ℕ → Bool) → ℕ → ℕ → Option ℕ
connect connects zero attempts = none
connect connects (suc left) attempts =
    let rest = connect connects left (attempts + 1) in
    if connects attempts then some attempts else rest

-- The account and its key, once the client is connected.
unfoldable pub account_of : Web3 → Provider → Value → Value → Result (String × Option String)
account_of web3 eth_provider account_passwd keystore_file =
    if is_none keystore_file
    then (if is_tester eth_provider
        then (do new_account ← web3.first_account; ok (new_account, none))
        else raise (other "Could not find an account. Please provide a valid keystore file"))
    else elim (web3.decrypt keystore_file account_passwd) [
      | raise e ↦ raise (other "Error reading or decrypting the keystore file")
      | ok account ↦ ok (account.0, some account.1)
    ]

unfoldable pub create_web3_client :
    Web3 → Provider → Value → Value → ℕ → Result (String × Option String)
unfolding connect account_of
create_web3_client web3 eth_provider account_passwd keystore_file max_attempts =
    elim (connect web3.connects max_attempts 0) [
      | none ↦ raise (other "Could not connect to ethereum node")
      | some attempts ↦ account_of web3 eth_provider account_passwd keystore_file
    ]

connect-some :
    (connects : ℕ → Bool) (left attempts n : ℕ)
    → attempts ≤ n
    → n < attempts + left
    → connects n ≡ true
    → (m : ℕ) × (connect connects left attempts ≡ some m)
unfolding connect
connect-some connects zero attempts n low high c = absurd (omega arith)
connect-some connects (suc left) attempts n low high c = elim (Bool-cases (connects attempts)) [
  | inl here ↦ (attempts, rw here refl)
  | inr fails ↦
      let (m, found) = connect-some connects left (attempts + 1) n (ground arith) (omega arith) c in
      (m, rw fails found)
]

connect-none :
    (connects : ℕ → Bool) (left attempts : ℕ)
    → ((i : ℕ) → i < attempts + left → connects i ≡ false)
    → connect connects left attempts ≡ none
unfolding connect
connect-none connects zero attempts fails = refl
connect-none connects (suc left) attempts fails =
    rw (fails attempts (omega arith))
      (connect-none connects left (attempts + 1) (λ i high. fails i (omega arith)))

-- The loop of attempts ends: it gives the account if one of the first `max_attempts` attempts reaches
-- the Ethereum node, whichever it is, and raises if none of them does.
pub create_web3_client-ends :
    (web3 : Web3) (eth_provider : Provider) (account_passwd keystore_file : Value)
    (max_attempts : ℕ)
    → ((n : ℕ)
        → n < max_attempts
        → web3.connects n ≡ true
        → create_web3_client web3 eth_provider account_passwd keystore_file max_attempts
          ≡ account_of web3 eth_provider account_passwd keystore_file)
      × (((i : ℕ) → i < max_attempts → web3.connects i ≡ false)
          → create_web3_client web3 eth_provider account_passwd keystore_file max_attempts
            ≡ raise (other "Could not connect to ethereum node"))
unfolding create_web3_client
create_web3_client-ends web3 eth_provider account_passwd keystore_file max_attempts = (
  λ n high c.
      let (m, found) = connect-some web3.connects max_attempts 0 n (omega arith) (omega arith) c in
      rw (found, create_web3_client) refl,
  λ fails.
      let none_found =
        connect-none web3.connects max_attempts 0 (λ i high. fails i (omega arith)) in
      rw (none_found, create_web3_client) refl,
)
