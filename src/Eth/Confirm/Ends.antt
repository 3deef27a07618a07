-- ===== src/Eth/Confirm/Ends.antt =====
-- How the wait for confirmations ends, and that it ends.
use qsp_protocol_node.Prelude.{
  ℕ, zero, suc, ◌+◌, ◌*◌, ◌≤◌, ◌<◌, ◌≡◌, refl, true, false, Option, none, some, arith, leb, Exn,
  Result, ok, raise, not_confirmed, Bool-cases, Result-cases, subst, sym, zero-add, inl, inr, ◌⊎◌,
  ap, ok-injective, ◌∙◌,
}
use qsp_protocol_node.Eth.Confirm.{
  View, returns, goes_on, raises, is_confirmed, body, wait_from,
  wait_for_confirmed_transaction_receipt,
}

is_confirmed-true :
    (n b : ℕ) (receipt : Option ℕ)
    → is_confirmed n b receipt ≡ true
    → (t : ℕ) × (receipt ≡ some t) × (t + n ≤ b)
unfolding is_confirmed
is_confirmed-true n b none h = absurd cc
is_confirmed-true n b (some t) h = (t, refl, ground arith)

is_confirmed-false :
    (n b t : ℕ) (receipt : Option ℕ)
    → receipt ≡ some t
    → is_confirmed n b receipt ≡ false
    → b < t + n
unfolding is_confirmed
is_confirmed-false n b t receipt r h = ground arith

le_cases : (a b : ℕ) → (a ≤ b) ⊎ (b < a)
le_cases a b = elim (Bool-cases (leb a b)) [
  | inl e ↦ inl (ground arith)
  | inr e ↦ inr (ground arith)
]

module _ (n limit : ℕ) (views : ℕ → View) where
  -- The chain has gone on to the block `b` in this round, and there the transaction has no receipt, or
  -- one with fewer confirmations.
  pub record Unconfirmed (k b : ℕ) : Type 0 where
    pub receipt : Option ℕ
    pub block_read : (views k).block_number ≡ ok b
    pub receipt_read : (views k).receipt ≡ ok receipt
    pub too_few : (t : ℕ) → receipt ≡ some t → b < t + n

  -- The loop comes to its test before round `k` with the block `c`: every round until then was entered
  -- within the limit and unconfirmed.
  pub data Reaches (first : ℕ) : ℕ → ℕ → Type 0 where
    at_first : Reaches first 0 first
    after : {k c b : ℕ} → Reaches first k c → c ≤ limit → Unconfirmed k b → Reaches first (k + 1) b

  -- How the wait ends at the test before round `k`, or in that round.
  pub data End (k c : ℕ) : Result (Unit {0}) → Type 0 where
    confirmed :
        {b t : ℕ}
        → c ≤ limit
        → (views k).block_number ≡ ok b
        → (views k).receipt ≡ ok (some t)
        → t + n ≤ b
        → End k c (ok tt)
    expired : limit < c → End k c (raise not_confirmed)
    no_block : {e : Exn} → c ≤ limit → (views k).block_number ≡ raise e → End k c (raise e)
    no_receipt :
        {b : ℕ} {e : Exn}
        → c ≤ limit
        → (views k).block_number ≡ ok b
        → (views k).receipt ≡ raise e
        → End k c (raise e)

  pub record Ended (first : ℕ) (result : Result (Unit {0})) : Type 0 where
    pub round : ℕ
    pub current_block : ℕ
    pub reached : Reaches first round current_block
    pub end : End round current_block result

  Waits : ℕ → ℕ → ℕ → ℕ → Type 0
  Waits first fuel k c =
      (result : Result (Unit {0})) × (wait_from n limit views fuel k c ≡ some result)
      × Ended first result

  body-cases :
      (k : ℕ)
      → ((body n (views k) ≡ returns)
          × (b t : ℕ) × ((views k).block_number ≡ ok b)
          × ((views k).receipt ≡ ok (some t))
          × (t + n ≤ b))
        ⊎ ((b : ℕ) × (body n (views k) ≡ goes_on b) × Unconfirmed k b)
        ⊎ ((e : Exn) × (body n (views k) ≡ raises e)
            × (((views k).block_number ≡ raise e)
                ⊎ ((b : ℕ) × ((views k).block_number ≡ ok b) × ((views k).receipt ≡ raise e))))
  body-cases k = elim (Result-cases (views k).block_number) [
    | inr (e, h) ↦ inr (inr (e, unfold body in rw h refl, inl h))
    | inl (b, h) ↦ elim (Result-cases (views k).receipt) [
      | inr (e, g) ↦ inr (inr (e, unfold body in rw (h, g) refl, inr (b, h, g)))
      | inl (receipt, g) ↦ elim (Bool-cases (is_confirmed n b receipt)) [
        | inl c ↦
            let (t, r, enough) = is_confirmed-true n b receipt c in
            inl (unfold body in rw (h, g, c) refl, b, t, h, g ∙ ap (λ o. ok o) r, enough)
        | inr c ↦ inr (
            inl (
              b,
              unfold body in rw (h, g, c) refl,
              record {
                receipt = receipt;
                block_read = h;
                receipt_read = g;
                too_few = λ t r. is_confirmed-false n b t receipt r c;
              },
            ))
      ]
    ]
  ]

  -- A round within the limit.
  one_round :
      (first fuel k c : ℕ)
      → c ≤ limit
      → Reaches first k c
      → ((b : ℕ)
          → Reaches first (k + 1) b
          → (views k).block_number ≡ ok b
          → Waits first fuel (k + 1) b)
      → Waits first (suc fuel) k c
  unfolding Waits wait_from
  one_round first fuel k c le reached rest =
      let within : leb c limit ≡ true = ground arith in
      elim (body-cases k) [
        | inl (e, b, t, h, g, enough) ↦ (
          ok tt,
          rw (within, e) refl,
          record { round = k; current_block = c; reached = reached; end = confirmed le h g enough },
        )
        | inr (inl (b, e, few)) ↦
            let (result, w, ended) = rest b (after reached le few) few.block_read in
            (result, rw (within, e) w, ended)
        | inr (inr (x, e, inl h)) ↦ (
          raise x,
          rw (within, e) refl,
          record { round = k; current_block = c; reached = reached; end = no_block le h },
        )
        | inr (inr (x, e, inr (b, h, g))) ↦ (
          raise x,
          rw (within, e) refl,
          record { round = k; current_block = c; reached = reached; end = no_receipt le h g },
        )
      ]

  too_late : (first fuel k c : ℕ) → limit < c → Reaches first k c → Waits first (suc fuel) k c
  unfolding Waits wait_from
  too_late first fuel k c late reached =
      let e : leb c limit ≡ false = ground arith in
      (
        raise not_confirmed,
        rw e refl,
        record { round = k; current_block = c; reached = reached; end = expired late },
      )

  wait_from-ends :
      (first fuel k c m late_block : ℕ)
      → Reaches first k c
      → (views (k + m)).block_number ≡ ok late_block
      → limit < late_block
      → m + 1 < fuel
      → Waits first fuel k c
  wait_from-ends first zero k c m l reached h late enough = absurd (omega arith)
  wait_from-ends first (suc zero) k c m l reached h late enough = absurd (omega arith)
  wait_from-ends first (suc (suc fuel)) k c zero l reached h late enough = elim (le_cases c limit) [
    | inr over ↦ too_late first (suc fuel) k c over reached
    | inl le ↦ one_round first (suc fuel) k c le reached (λ b reached' h'.
        let k_zero : k + 0 ≡ k = omega arith in
        let same : l ≡ b =
          ok-injective (sym (subst (λ i. (views i).block_number ≡ ok l) k_zero h) ∙ h') in
        too_late first fuel (k + 1) b (subst (λ x. limit < x) same late) reached')
  ]
  wait_from-ends first (suc (suc fuel)) k c (suc m) l reached h late enough =
      elim (le_cases c limit) [
        | inr over ↦ too_late first (suc fuel) k c over reached
        | inl le ↦
            let e : k + suc m ≡ k + 1 + m = omega arith in
            one_round first (suc fuel) k c le reached (λ b reached' h'.
              wait_from-ends first (suc fuel) (k + 1) b m l reached'
                (subst (λ i. (views i).block_number ≡ ok l) e h) late (omega arith))
      ]

-- Where the block before the loop and its first current block are read, and some round reads a block
-- that is more than three times the confirmations after the start, fuel for two rounds more is enough,
-- and the wait ends: it returns only in a round that it enters with a block within that limit, and in
-- which it reads a receipt with its confirmations; it raises TransactionNotConfirmedException only
-- where the block last read is beyond the limit, and another exception only where a read of that round
-- raises it. In every round before, which it enters within the limit, it has read a block, and no
-- receipt or one with fewer confirmations.
pub wait_for_confirmed_transaction_receipt-ends :
    (n start first : ℕ) (views : ℕ → View) (k late_block : ℕ)
    → (views k).block_number ≡ ok late_block
    → start + n * 3 < late_block
    → (result : Result (Unit {0})) × (wait_for_confirmed_transaction_receipt n
          (ok start)
          (ok first)
          views
          (k + 2)
        ≡ some result)
      × Ended n (start + n * 3) views first result
unfolding wait_for_confirmed_transaction_receipt Waits
wait_for_confirmed_transaction_receipt-ends n start first views k late_block h late =
    wait_from-ends n (start + n * 3) views first (k + 2) 0 first k late_block at_first
      (subst (λ i. (views i).block_number ≡ ok late_block) (sym (zero-add k)) h) late (omega arith)
