-- ===== src/Threads/Poll.antt =====
-- PollRequestsThread (audit/threads/poll_requests_thread.py) and the cached answer of
-- QSPAuditNode.is_police_officer (audit/audit.py).
pub mod Bids
use qsp_protocol_node.Prelude.{
  ℕ, String, ◌+◌, Bool, true, false, not, ◌&&◌, ◌||◌, Option, none, some, List, ◌∷◌, if◌then◌else◌,
  ltb, leb, ◌==◌, Result, ok, raise,
}
use qsp_protocol_node.Evt.{
  Evt, assigned, audit_assigned, audit_type, set_evt_as_audit, set_evt_as_police_check,
}
use qsp_protocol_node.Pool.Manager.{Pool, is_request_processed, add_evt_to_be_assigned}
use qsp_protocol_node.Threads.Chain.{Config, Transaction, get_next_audit_request, attempt}

-- What myMostRecentAssignedAudit returns.
pub record Assignment : Type 0 where
  pub request_id : ℕ
  pub requestor : String
  pub uri : String
  pub price : ℕ
  pub block_number : ℕ

-- What getNextPoliceAssignment returns.
pub record PoliceAssignment : Type 0 where
  pub has_assignment : Bool
  pub request_id : ℕ
  pub price : ℕ
  pub uri : String
  pub block_number : ℕ

-- The contract's answers to the read-only calls of one round.
pub record Answers : Type 0 where
  pub is_police_node : Result Bool
  pub most_recent_assigned_audit : Result Assignment
  pub any_request_available : Result ℕ
  pub assigned_request_count : Result ℕ
  pub next_police_assignment : Result PoliceAssignment

-- The state of the node that a round changes, and the transactions that it has asked for.
pub record Polling : Type 0 where
  pub is_police_officer_cached : Option Bool
  pub pool : Pool
  pub sent : List Transaction

abbrev pub available_audit_state_ready : ℕ
available_audit_state_ready = 1

abbrev pub available_audit_understaked : ℕ
available_audit_understaked = 5

-- QSPAuditNode.is_police_officer: an exception counts as no.
unfoldable pub is_police_officer : Result Bool → Bool
is_police_officer (ok is_police) = is_police
is_police_officer (raise e) = false

-- PollRequestsThread.__is_police_officer: the first answer is kept.
unfoldable pub cached_is_police_officer : Option Bool → Result Bool → Bool
unfolding is_police_officer
cached_is_police_officer (some cached) answer = cached
cached_is_police_officer none answer = is_police_officer answer

-- __add_evt_to_db; columns that are no keys of the dictionary have the table's defaults.
unfoldable pub mk_evt : ℕ → String → String → ℕ → ℕ → Bool → Evt
unfolding set_evt_as_audit set_evt_as_police_check
mk_evt request_id requestor uri price assigned_block_nbr is_audit =
    if is_audit then set_evt_as_audit evt else set_evt_as_police_check evt
  where
    evt : Evt
    evt = record {
      request_id = request_id;
      requestor = requestor;
      contract_uri = uri;
      evt_name = "LogAuditAssigned";
      assigned_block_nbr = assigned_block_nbr;
      submission_block_nbr = none;
      fk_status = assigned;
      fk_type = audit_type;
      price = price;
      status_info = audit_assigned;
      tx_hash = none;
      submission_attempts = 0;
      is_persisted = false;
      audit_uri = none;
      audit_hash = none;
      audit_state = none;
      full_report = none;
      compressed_report = none;
    }

-- A bid that was won, if it is new: `request_id != 0 and not is_request_processed(...)`.
unfoldable pub save_new_assignment : Assignment → Pool → Result Pool
unfolding mk_evt
save_new_assignment audit pool =
    if audit.request_id == 0 then ok pool else elim (is_request_processed audit.request_id pool) [
      | raise e ↦ raise e
      | ok processed ↦
          if processed
          then ok pool
          else ok (
              add_evt_to_be_assigned
                (mk_evt audit.request_id audit.requestor audit.uri audit.price audit.block_number
                  true)
                pool)
    ]

-- The end of __poll_audit_request: whether to bid. NotEnoughStake is raised and logged.
unfoldable pub bid : Config → Answers → Polling → Polling
bid config answers s = attempt answers.any_request_available s λ available.
    if available == available_audit_understaked
    then s
    else if available == available_audit_state_ready
    then attempt answers.assigned_request_count s (λ pending.
      if leb config.max_assigned_requests pending
      then s
      else record s { sent = get_next_audit_request ∷ s.sent })
    else s

-- An assignment that has no N confirmations yet.
abbrev pub unconfirmed : Config → ℕ → ℕ → Bool
unconfirmed config block current_block = ltb current_block (block + config.n_blocks_confirmation)

-- __poll_audit_request below its first test; every exception is logged and ends the round.
unfoldable pub poll_confirmed : Config → Answers → ℕ → Polling → Polling
unfolding save_new_assignment bid
poll_confirmed config answers current_block s =
    attempt answers.most_recent_assigned_audit s λ audit.
      if not (audit.block_number == 0) && unconfirmed config audit.block_number current_block
      then s
      else attempt (save_new_assignment audit s.pool) s
          (λ pool. bid config answers (record s { pool = pool }))

unfoldable pub poll_audit_request : Config → Answers → ℕ → Polling → Polling
unfolding poll_confirmed cached_is_police_officer
poll_audit_request config answers current_block s =
    let police = cached_is_police_officer s.is_police_officer_cached answers.is_police_node in
    let s' = record s { is_police_officer_cached = some police } in
    if police && not config.enable_police_audit_polling
    then s'
    else poll_confirmed config answers current_block s'

unfoldable pub save_police_assignment : Config → PoliceAssignment → ℕ → Pool → Result Pool
unfolding mk_evt
save_police_assignment config probe current_block pool =
    elim (is_request_processed probe.request_id pool) [
      | raise e ↦ raise e
      | ok processed ↦
          if processed || not probe.has_assignment
          then ok pool
          else if unconfirmed config probe.block_number current_block
          then ok pool
          else ok (
              add_evt_to_be_assigned
                (mk_evt probe.request_id config.audit_contract_address probe.uri probe.price
                  probe.block_number false)
                pool)
    ]

unfoldable pub poll_police_request : Config → Answers → ℕ → Polling → Polling
unfolding save_police_assignment cached_is_police_officer
poll_police_request config answers current_block s =
    let police = cached_is_police_officer s.is_police_officer_cached answers.is_police_node in
    let s' = record s { is_police_officer_cached = some police } in
    if police
    then attempt answers.next_police_assignment s' (λ probe.
      attempt (save_police_assignment config probe current_block s'.pool) s'
        (λ pool. record s' { pool = pool }))
    else s'

unfoldable pub poll_requests : Config → Answers → ℕ → Polling → Polling
unfolding poll_audit_request poll_police_request
poll_requests config answers current_block s =
    poll_police_request config answers current_block
      (poll_audit_request config answers current_block s)
