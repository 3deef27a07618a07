-- ===== src/Eth/Send/Retries.antt =====
-- What the retries of a transaction come to.
use qsp_protocol_node.Prelude.{
  ℕ, zero, suc, ◌+◌, ◌≤◌, ◌<◌, ◌≡◌, refl, String, Bool, false, Option, some, arith, ◌==◌, ok, Exn,
  >>=-eq-ok, Result-cases, inl, inr, ◌⊎◌,
}
use qsp_protocol_node.Eth.Args.{Account, Args, mk_args}
use qsp_protocol_node.Eth.Send.{
  Web3, Waiting, send, Retry, again, give_up, retry, retry_value_error, attempts_from,
  send_signed_transaction,
}

-- A round that is retried goes on with its nonce or the next one.
retry-again :
    (web3 : Web3) (i : ℕ) (last : Bool) (nonce : ℕ) (e : Exn) (n : ℕ)
    → retry web3 i last nonce e ≡ again n
    → (last ≡ false) × (nonce ≤ n) × (n ≤ nonce + 1)
unfolding retry retry_value_error
retry-again web3 i last nonce e n h = ground arith

Retry-cases : (r : Retry) → ((n : ℕ) × (r ≡ again n)) ⊎ ((e : Exn) × (r ≡ give_up e))
Retry-cases (again n) = inl (n, refl)
Retry-cases (give_up e) = inr (e, refl)

-- A hash comes from one of the rounds, sent with a nonce that the rounds before it moved on by one
-- each at most; and while a round is left, None is not returned.
abbrev pub Outcome : Web3 → Waiting → Args → ℕ → ℕ → ℕ → Option String → Type 0
Outcome web3 waiting args i left nonce result =
    (tx_hash : String) × (j : ℕ) × (n : ℕ) × (result ≡ some tx_hash)
    × (send web3 waiting j (record args { nonce = some n }) ≡ ok tx_hash)
    × (i ≤ j)
    × (j < i + left)
    × (nonce ≤ n)
    × (n + i ≤ nonce + j)

attempts_from-Outcome :
    (web3 : Web3) (waiting : Waiting) (args : Args) (i left nonce : ℕ) (result : Option String)
    → 0 < left
    → attempts_from web3 waiting args i left nonce ≡ ok result
    → Outcome web3 waiting args i left nonce result
unfolding attempts_from
attempts_from-Outcome web3 waiting args i zero nonce result pos h = absurd (omega arith)
attempts_from-Outcome web3 waiting args i (suc left) nonce result pos h =
    elim (Result-cases (send web3 waiting i (record args { nonce = some nonce }))) [
      | inl (tx_hash, e) ↦
          (tx_hash, i, nonce, ground arith, e, omega arith, omega arith, omega arith, omega arith)
      | inr (x, e) ↦ elim (Retry-cases (retry web3 i (left == 0) nonce x)) [
        | inr (y, g) ↦ absurd (ground arith)
        | inl (n, g) ↦
            let (more, low, high) = retry-again web3 i (left == 0) nonce x n g in
            let (tx_hash, j, m, q, s, later, within, above, below) =
              attempts_from-Outcome web3 waiting args (i + 1) left n result (ground arith)
                (ground arith) in
            (tx_hash, j, m, q, s, omega arith, omega arith, omega arith, omega arith)
      ]
    ]

unfolds_key :
    (config : Account) (web3 : Web3) (waiting : Waiting) (attempts : ℕ) (key : String)
    (result : Option String)
    → config.account_private_key ≡ some key
    → send_signed_transaction config web3 waiting attempts ≡ ok result
    → (args : Args) × (nonce : ℕ) × (mk_args config ≡ ok args)
      × (web3.first_transaction_count ≡ ok nonce)
      × (attempts_from web3 waiting args 0 attempts nonce ≡ ok result)
unfolding send_signed_transaction
unfolds_key config web3 waiting attempts key result k h =
    let (args, a, h₁) = >>=-eq-ok (mk_args config) _ h in
    let (nonce, c, h₂) = >>=-eq-ok web3.first_transaction_count _ (rw k at h₁) in
    (args, nonce, a, c, h₂)

-- With a local key and at least one attempt, a transaction that is sent returns the hash of one of
-- the attempts, never None; it was sent under the arguments of the configuration, with a nonce from
-- the transaction count on, moved on by one at most for each attempt before.
pub send_signed_transaction-Outcome :
    (config : Account) (web3 : Web3) (waiting : Waiting) (attempts : ℕ) (key : String)
    (result : Option String)
    → config.account_private_key ≡ some key
    → 0 < attempts
    → send_signed_transaction config web3 waiting attempts ≡ ok result
    → (args : Args) × (nonce : ℕ) × (mk_args config ≡ ok args)
      × (web3.first_transaction_count ≡ ok nonce)
      × Outcome web3 waiting args 0 attempts nonce result
send_signed_transaction-Outcome config web3 waiting attempts key result k pos h =
    let (args, nonce, a, c, h₁) = unfolds_key config web3 waiting attempts key result k h in
    (args, nonce, a, c, attempts_from-Outcome web3 waiting args 0 attempts nonce result pos h₁)
