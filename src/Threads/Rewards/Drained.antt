-- ===== src/Threads/Rewards/Drained.antt =====
-- The loop that claims rewards ends, and when it ends with success nothing is left that it could claim.
use qsp_protocol_node.Prelude.{
  ℕ, zero, suc, ◌+◌, ◌≡◌, ◌≢◌, ◌<◌, ◌≤◌, arith, String, Bool, true, false, ◌&&◌, ◌==◌, none, some,
  ok, raise, Exn, Bool-cases, Result-cases, inl, inr, ◌⊎◌, sym, zero-add, subst,
}
use qsp_protocol_node.Threads.Rewards.{
  Answers, claim_rewards, claim_loop, claim_rewards_if_available,
}

-- The loop stopped at turn `n`: it was told to, nothing is left, or the claim failed.
abbrev pub Stopped : Answers → ℕ → Type 0
Stopped answers n =
    (answers.exec n ≡ false)
    ⊎ ((answers.has_available_rewards n ≡ ok false)
        ⊎ ((e : Exn) × (claim_rewards answers n ≡ raise e)))

-- Every turn before it claimed a reward that was available.
abbrev pub Claimed : Answers → ℕ → ℕ → Type 0
Claimed answers i n =
    (j : ℕ)
    → i ≤ j
    → j < n
    → (answers.has_available_rewards j ≡ ok true)
      × ((hash : String) × (claim_rewards answers j ≡ ok hash))

Claimed-first :
    (answers : Answers) (i n : ℕ)
    → answers.has_available_rewards i ≡ ok true
    → (hash : String) → claim_rewards answers i ≡ ok hash
    → Claimed answers (i + 1) n
    → Claimed answers i n
Claimed-first answers i n a hash c claimed j low high = elim (Bool-cases (i == j)) [
  | inl e ↦
      let same : i ≡ j = ground arith in
      subst
        (λ k.
          (answers.has_available_rewards k ≡ ok true)
          × ((hash : String) × (claim_rewards answers k ≡ ok hash)))
        same (a, (hash, c))
  | inr e ↦ claimed j (ground arith) high
]

claim_loop-Stopped :
    (answers : Answers) (fuel i n : ℕ) (available : Bool)
    → answers.has_available_rewards i ≡ ok available
    → claim_loop answers fuel i available ≡ some (ok n)
    → Stopped answers n × Claimed answers i n × (i ≤ n)
unfolding claim_loop
claim_loop-Stopped answers zero i n available a h = cc
claim_loop-Stopped answers (suc fuel) i n false a h =
    let same : i ≡ n = ground arith in
    (subst (Stopped answers) same (inr (inl a)), λ j low high. absurd (omega arith), omega arith)
claim_loop-Stopped answers (suc fuel) i n true a h = elim (Bool-cases (answers.exec i)) [
  | inr e ↦
      let same : i ≡ n = ground arith in
      (subst (Stopped answers) same (inl e), λ j low high. absurd (omega arith), omega arith)
  | inl e ↦ elim (Result-cases (claim_rewards answers i)) [
    | inr (x, c) ↦
        let same : i ≡ n = ground arith in
        (
          subst (Stopped answers) same (inr (inr (x, c))),
          λ j low high. absurd (omega arith),
          omega arith,
        )
    | inl (hash, c) ↦ elim (Result-cases (answers.has_available_rewards (i + 1))) [
      | inr (x, r) ↦ absurd (ground arith)
      | inl (more, r) ↦
          let (stopped, claimed, le) =
            claim_loop-Stopped answers fuel (i + 1) n more r (ground arith) in
          (stopped, Claimed-first answers i n a hash c claimed, omega arith)
    ]
  ]
]

-- A run of the thread that comes to its end has claimed one reward after the other, each while the
-- contract had some, and stopped for one of three reasons only: it was told to, the contract had
-- none left, or a claim failed.
pub claim_rewards-Stopped :
    (answers : Answers) (fuel n : ℕ)
    → claim_rewards_if_available answers fuel ≡ some (ok n)
    → Stopped answers n × Claimed answers 0 n
unfolding claim_rewards_if_available
claim_rewards-Stopped answers fuel n h = elim (Result-cases (answers.has_available_rewards 0)) [
  | inr (x, r) ↦ absurd (ground arith)
  | inl (available, r) ↦
      let (stopped, claimed, le) = claim_loop-Stopped answers fuel 0 n available r (ground arith) in
      (stopped, claimed)
]

-- The loop is told to stop at turn `k`, or the contract has nothing left then.
abbrev pub Over : Answers → ℕ → Type 0
Over answers k = (answers.exec k ≡ false) ⊎ (answers.has_available_rewards k ≡ ok false)

claim_loop-ends :
    (answers : Answers) (k i : ℕ) (available : Bool)
    → Over answers (i + k)
    → answers.has_available_rewards i ≡ ok available
    → claim_loop answers (suc k) i available ≢ none
unfolding claim_loop
claim_loop-ends answers zero i available over a h =
    let same : i + 0 ≡ i = omega arith in
    elim (subst (Over answers) same over) [ inl e ↦ ground arith | inr e ↦ ground arith ]
claim_loop-ends answers (suc k) i available over a h =
    elim (Result-cases (claim_rewards answers i)) [
      | inr (x, c) ↦ ground arith
      | inl (hash, c) ↦ elim (Result-cases (answers.has_available_rewards (i + 1))) [
        | inr (x, r) ↦ ground arith
        | inl (more, r) ↦ elim (Bool-cases (answers.exec i && available)) [
          | inr e ↦ ground arith
          | inl e ↦
              let same : i + suc k ≡ i + 1 + k = omega arith in
              claim_loop-ends answers k (i + 1) more (subst (Over answers) same over) r
                (ground arith)
        ]
      ]
    ]

-- A run comes to its end: if the thread is told to stop at its turn `k`, or the contract has nothing
-- left then, fuel for the turns up to it is enough.
pub claim_rewards-ends :
    (answers : Answers) (k : ℕ) → Over answers k → claim_rewards_if_available answers (suc k) ≢ none
unfolding claim_rewards_if_available
claim_rewards-ends answers k over h = elim (Result-cases (answers.has_available_rewards 0)) [
  | inr (x, r) ↦ ground arith
  | inl (available, r) ↦
      claim_loop-ends answers k 0 available (subst (Over answers) (sym (zero-add k)) over) r
        (ground arith)
]
