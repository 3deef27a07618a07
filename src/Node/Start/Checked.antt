-- ===== src/Node/Start/Checked.antt =====
-- What holds of a node that has started.
use qsp_protocol_node.Prelude.{
  ℕ, ◌*◌, ◌^◌, ◌≤◌, ◌≡◌, refl, String, Bool, true, false, not, ◌&&◌, Option, none, some, arith, ltb,
  ◌==◌, ok, >>=-eq-ok, ok-injective, Bool-cases, Option-cases, inl, inr, ◌⊎◌, ◌∙◌, ap, subst,
}
use qsp_protocol_node.Threads.Poll.{is_police_officer}
use qsp_protocol_node.Pool.Manager.{Pool}
use qsp_protocol_node.Threads.Chain.{Config}
use qsp_protocol_node.Threads.Restart.{timeout_stale_requests}
use qsp_protocol_node.Node.Start.{
  Answers, Started, has_enough_stake, check_stake, update_min_price, check_and_update_min_price,
  start,
}

-- A node may run: it has its stake, or is a police node that does not poll audits.
abbrev pub MayRun : Config → Answers → Type 0
MayRun config answers =
    (answers.has_enough_stake ≡ ok true)
    ⊎ ((answers.is_police_node ≡ ok true) × (config.enable_police_audit_polling ≡ false))

-- The contract has the price of the configuration, from before or by the transaction that was sent.
abbrev pub HasPrice : ℕ → Answers → Option ℕ → Type 0
HasPrice price answers sent =
    ((answers.min_audit_price ≡ ok price) × (sent ≡ none))
    ⊎ ((sent ≡ some price) × ((hash : String) × (answers.send_price price ≡ ok (some hash))))

check_stake-MayRun :
    (config : Config) (answers : Answers)
    → check_stake config answers ≡ ok tt
    → MayRun config answers
unfolding check_stake has_enough_stake is_police_officer
check_stake-MayRun config answers h =
    elim (Bool-cases
      (is_police_officer answers.is_police_node && not config.enable_police_audit_polling)) [
        | inl e ↦ inr (ground arith)
        | inr e ↦ inl (ground arith)
      ]

update_min_price-sent :
    (min_price : ℕ) (answers : Answers) (sent : ℕ)
    → update_min_price min_price answers ≡ ok sent
    → (sent ≡ min_price * 10 ^ 18)
      × ((hash : String) × (answers.send_price (min_price * 10 ^ 18) ≡ ok (some hash)))
unfolding update_min_price
update_min_price-sent min_price answers sent h =
    let (tx_hash, e, h₁) = >>=-eq-ok (answers.send_price (min_price * 10 ^ 18)) _ h in
    elim (Option-cases tx_hash) [
      | inl n ↦ absurd (ground arith)
      | inr (hash, n) ↦ (ground arith, (hash, ground arith))
    ]

-- The two tests on the prices.
check_price-HasPrice :
    (min_price : ℕ) (answers : Answers) (sent : Option ℕ)
    → check_and_update_min_price min_price answers ≡ ok sent
    → HasPrice (min_price * 10 ^ 18) answers sent
      × ((cap : ℕ) × (answers.min_audit_price_lower_cap ≡ ok cap) × (cap ≤ min_price * 10 ^ 18))
unfolding check_and_update_min_price
check_price-HasPrice min_price answers sent h =
    let (price, p, h₁) = >>=-eq-ok answers.min_audit_price _ h in
    let (cap, c, h₂) = >>=-eq-ok answers.min_audit_price_lower_cap _ h₁ in
    elim (Bool-cases (ltb (min_price * 10 ^ 18) cap)) [
      | inl low ↦ absurd (ground arith)
      | inr high ↦ elim (Bool-cases (min_price * 10 ^ 18 == price)) [
        | inl same ↦ (inl (ground arith), (cap, c, ground arith))
        | inr differs ↦
            let (s, e, h₃) =
              >>=-eq-ok (update_min_price min_price answers) _ (rw (high, differs) at h₂) in
            let (q, hash) = update_min_price-sent min_price answers s e in
            (inr (ground arith, hash), (cap, c, ground arith))
      ]
    ]

-- A node that starts was not running, has its stake or is a police node that polls no audits, has its
-- minimum price on the contract and not under the contract's floor, and has timed out its stale requests.
pub start-Checked :
    (exec : Bool) (config : Config) (min_price : ℕ) (answers : Answers) (pool : Pool)
    (started : Started)
    → start exec config min_price answers pool ≡ ok started
    → (exec ≡ false)
      × MayRun config answers
      × HasPrice (min_price * 10 ^ 18) answers started.sent_price
      × ((cap : ℕ) × (answers.min_audit_price_lower_cap ≡ ok cap) × (cap ≤ min_price * 10 ^ 18))
      × ((block : ℕ) × (answers.block_number ≡ ok block)
          × (timeout_stale_requests config block pool ≡ ok started.pool))
unfolding start
start-Checked true config min_price answers pool started h = cc
start-Checked false config min_price answers pool started h =
    let (u, s, h₁) = >>=-eq-ok (check_stake config answers) _ h in
    let (sent, p, h₂) = >>=-eq-ok (check_and_update_min_price min_price answers) _ h₁ in
    let (block, b, h₃) = >>=-eq-ok answers.block_number _ h₂ in
    let (pool', t, h₄) = >>=-eq-ok (timeout_stale_requests config block pool) _ h₃ in
    let q = ok-injective h₄ in
    let (has_price, cap) = check_price-HasPrice min_price answers sent p in
    (
      refl,
      check_stake-MayRun config answers s,
      subst (HasPrice (min_price * 10 ^ 18) answers) (ap (λ (x : Started). x.sent_price) q)
          has_price,
      cap,
      (block, b, t ∙ ap (λ (x : Started). ok x.pool) q),
    )
