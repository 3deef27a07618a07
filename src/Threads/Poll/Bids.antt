-- ===== src/Threads/Poll/Bids.antt =====
-- When the polling thread bids for an audit.
use qsp_protocol_node.Prelude.{
  ℕ, ◌+◌, ◌≤◌, ◌<◌, ◌≡◌, false, not, ◌&&◌, some, ◌∷◌, arith, ltb, ◌==◌, ok, Bool-cases,
  Result-cases, inl, inr, ◌⊎◌, ◌∙◌,
}
use qsp_protocol_node.Threads.Chain.{Config, get_next_audit_request}
use qsp_protocol_node.Threads.Poll.{
  Answers, Assignment, Polling, cached_is_police_officer, save_new_assignment, bid, poll_confirmed,
  poll_audit_request, poll_police_request, poll_requests, available_audit_state_ready,
}

-- A bid is due: an audit is available, and the node has room for it.
abbrev pub Due : Config → Answers → Type 0
Due config answers =
    (answers.any_request_available ≡ ok available_audit_state_ready)
    × ((pending : ℕ) × (answers.assigned_request_count ≡ ok pending)
        × (pending < config.max_assigned_requests))

-- The last assignment is known, and none or confirmed.
abbrev pub Settled : Config → Answers → ℕ → Type 0
Settled config answers current_block =
    (audit : Assignment) × (answers.most_recent_assigned_audit ≡ ok audit)
    × ((audit.block_number ≡ 0)
        ⊎ (audit.block_number + config.n_blocks_confirmation ≤ current_block))

bid-sent :
    (config : Config) (answers : Answers) (s : Polling)
    → ((bid config answers s).sent ≡ s.sent)
      ⊎ (((bid config answers s).sent ≡ get_next_audit_request ∷ s.sent) × Due config answers)
unfolding bid
bid-sent config answers s = elim (Result-cases answers.any_request_available) [
  | inr (e, a) ↦ inl (ground arith)
  | inl (available, a) ↦ elim (Result-cases answers.assigned_request_count) [
    | inr (e, c) ↦ inl (ground arith)
    | inl (pending, c) ↦
        elim (Bool-cases
          (available == available_audit_state_ready && ltb pending config.max_assigned_requests)) [
            | inl due ↦ inr (ground arith, (ground arith, (pending, c, ground arith)))
            | inr idle ↦ inl (ground arith)
          ]
  ]
]

poll_police_request-sent :
    (config : Config) (answers : Answers) (block : ℕ) (s : Polling)
    → (poll_police_request config answers block s).sent ≡ s.sent
unfolding poll_police_request
poll_police_request-sent config answers block s = ground arith

settled_block :
    (audit : Assignment) (config : Config) (block : ℕ)
    → (not (audit.block_number == 0)
        && ltb block (audit.block_number + config.n_blocks_confirmation))
      ≡ false
    → (audit.block_number ≡ 0) ⊎ (audit.block_number + config.n_blocks_confirmation ≤ block)
settled_block audit config block h = ground arith

poll_confirmed-sent :
    (config : Config) (answers : Answers) (block : ℕ) (s : Polling)
    → ((poll_confirmed config answers block s).sent ≡ s.sent)
      ⊎ (((poll_confirmed config answers block s).sent ≡ get_next_audit_request ∷ s.sent)
          × (Due config answers × Settled config answers block))
unfolding poll_confirmed
poll_confirmed-sent config answers block s =
    elim (Result-cases answers.most_recent_assigned_audit) [
      | inr (e, a) ↦ inl (ground arith)
      | inl (audit, a) ↦
          elim (Bool-cases (
            not (audit.block_number == 0)
            && ltb block (audit.block_number + config.n_blocks_confirmation))) [
              | inl wait ↦ inl (ground arith)
              | inr settled ↦ elim (Result-cases (save_new_assignment audit s.pool)) [
                | inr (e, p) ↦ inl (ground arith)
                | inl (pool, p) ↦ elim (bid-sent config answers (record s { pool = pool })) [
                  | inl same ↦ inl (ground arith)
                  | inr (sent, due) ↦
                      inr
                        (ground arith, (due, (audit, a, settled_block audit config block settled)))
                ]
              ]
            ]
    ]

-- What a round has sent more than before: nothing, or one bid that was due.
abbrev pub Bids : Config → Answers → ℕ → Polling → Polling → Type 0
Bids config answers block s s' =
    (s'.sent ≡ s.sent)
    ⊎ ((s'.sent ≡ get_next_audit_request ∷ s.sent)
        × (Due config answers
            × (Settled config answers block
                × ((cached_is_police_officer s.is_police_officer_cached answers.is_police_node
                      && not config.enable_police_audit_polling)
                    ≡ false))))

poll_audit_request-Bids :
    (config : Config) (answers : Answers) (block : ℕ) (s : Polling)
    → Bids config answers block s (poll_audit_request config answers block s)
unfolding poll_audit_request
poll_audit_request-Bids config answers block s =
    let police = cached_is_police_officer s.is_police_officer_cached answers.is_police_node in
    elim (Bool-cases (police && not config.enable_police_audit_polling)) [
      | inl e ↦ inl (ground arith)
      | inr e ↦
          elim (poll_confirmed-sent config answers block
            (record s { is_police_officer_cached = some police })) [
              | inl same ↦ inl (ground arith)
              | inr (sent, (due, settled)) ↦ inr (ground arith, (due, (settled, e)))
            ]
    ]

-- A round of polling sends at most one bid, and only when an audit is available, the node has
-- fewer audits than its maximum, its last assignment is none or has its confirmations, and the node
-- is no police node that leaves audits alone.
pub poll_requests-Bids :
    (config : Config) (answers : Answers) (block : ℕ) (s : Polling)
    → Bids config answers block s (poll_requests config answers block s)
unfolding poll_requests
poll_requests-Bids config answers block s =
    let same =
      poll_police_request-sent config answers block (poll_audit_request config answers block s) in
    elim (poll_audit_request-Bids config answers block s) [
      | inl q ↦ inl (same ∙ q)
      | inr (sent, due) ↦ inr (same ∙ sent, due)
    ]
