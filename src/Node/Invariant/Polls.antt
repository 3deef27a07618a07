-- ===== src/Node/Invariant/Polls.antt =====
-- A round of the polling thread adds at most one row for each of its two requests, and only for a
-- request that the table does not have.
use qsp_protocol_node.Prelude.{
  ℕ, String, ◌≡◌, refl, Bool, true, false, not, ◌&&◌, ◌||◌, none, some, List, [], ◌∷◌, ◌++◌, arith,
  ap, sym, ◌==◌, inl, inr, subst, if_cases, Result, ok, raise, Result-cases, ok-injective,
  if◌then◌else◌,
}
use qsp_protocol_node.Evt.{Evt, assigned}
use qsp_protocol_node.Evt.Codec.{Row, encode, decode_nullable}
use qsp_protocol_node.Evt.Decimal.{int-str}
use qsp_protocol_node.Pool.Rows.{find}
use qsp_protocol_node.Pool.Rows.Laws.{insert-new}
use qsp_protocol_node.Pool.Manager.{
  Pool, add_evt_to_be_assigned, inserted_columns, is_request_processed,
}
use qsp_protocol_node.Threads.Chain.{Config, attempt}
use qsp_protocol_node.Threads.Poll.{
  Answers, Assignment, PoliceAssignment, Polling, mk_evt, bid, save_new_assignment, poll_confirmed,
  poll_audit_request, save_police_assignment, poll_police_request, cached_is_police_officer,
  unconfirmed,
}
use qsp_protocol_node.Node.Rows.{IsSound}

pub data Added (rows rows' : List Row) : Type 0 where
  nothing : rows' ≡ rows → Added rows rows'
  added :
      (row : Row)
      → find row.request_id rows ≡ none
      → row.fk_status ≡ assigned
      → IsSound row
      → rows' ≡ rows ++ row ∷ []
      → Added rows rows'

-- A request that is not processed is not in an open table.
not_processed :
    (id : ℕ) (pool : Pool)
    → is_request_processed id pool ≡ ok false
    → pool.closed ≡ false
    → find id pool.rows ≡ none
unfolding is_request_processed
not_processed id pool h open_ = ground arith

inserted-IsSound : (evt : Evt) → IsSound (inserted_columns (encode evt))
unfolding encode decode_nullable
inserted-IsSound evt = ground (arith, int-str evt.assigned_block_nbr, int-str evt.price)

add_evt-Added :
    (evt : Evt) (pool : Pool)
    → is_request_processed evt.request_id pool ≡ ok false
    → Added pool.rows (add_evt_to_be_assigned evt pool).rows
unfolding add_evt_to_be_assigned
add_evt-Added evt pool h =
    if_cases (λ (p : Pool). Added pool.rows p.rows) pool.closed (λ _. nothing refl)
      (λ c.
        added (inserted_columns (encode evt))
          (unfold encode in not_processed evt.request_id pool h c) (unfold encode in refl)
          (inserted-IsSound evt)
          (unfold encode in
            insert-new pool.rows (inserted_columns (encode evt))
              (not_processed evt.request_id pool h c)))

mk_evt_id :
    (id : ℕ) (requestor uri : String) (price block : ℕ) (audit : Bool)
    → (mk_evt id requestor uri price block audit).request_id ≡ id
unfolding mk_evt
mk_evt_id id requestor uri price block audit = ground arith

save_evt-Added :
    (id : ℕ) (requestor uri : String) (price block : ℕ) (audit : Bool) (pool : Pool)
    → is_request_processed id pool ≡ ok false
    → Added pool.rows (add_evt_to_be_assigned (mk_evt id requestor uri price block audit) pool).rows
save_evt-Added id requestor uri price block audit pool h =
    add_evt-Added (mk_evt id requestor uri price block audit) pool
      (rw (mk_evt_id id requestor uri price block audit) h)

Adds : Pool → Result Pool → Type 0
Adds pool r = (pool' : Pool) → r ≡ ok pool' → Added pool.rows pool'.rows

Adds-nothing : (pool : Pool) → Adds pool (ok pool)
unfolding Adds
Adds-nothing pool pool' h = nothing (ap (λ (p : Pool). p.rows) (sym (ok-injective h)))

Adds-one : (pool new : Pool) → Added pool.rows new.rows → Adds pool (ok new)
unfolding Adds
Adds-one pool new a pool' h = subst (λ (p : Pool). Added pool.rows p.rows) (ok-injective h) a

save_new_assignment-Adds :
    (audit : Assignment) (pool : Pool) → Adds pool (save_new_assignment audit pool)
unfolding save_new_assignment
save_new_assignment-Adds audit pool =
    if_cases (Adds pool) (audit.request_id == 0) (λ _. Adds-nothing pool)
      (λ _. elim (Result-cases (is_request_processed audit.request_id pool)) [
        | inl (processed, e) ↦ rw e (split processed e)
        | inr (x, e) ↦ rw e (unfold Adds in λ pool' h. cc)
      ])
  where
    split :
        (processed : Bool)
        → is_request_processed audit.request_id pool ≡ ok processed
        → Adds pool (
            if processed
            then ok pool
            else ok (
                add_evt_to_be_assigned
                  (mk_evt audit.request_id audit.requestor audit.uri audit.price audit.block_number
                    true)
                  pool))
    split true e = Adds-nothing pool
    split false e = Adds-one pool _ (save_evt-Added _ _ _ _ _ true pool e)

save_police_assignment-Adds :
    (config : Config) (probe : PoliceAssignment) (block : ℕ) (pool : Pool)
    → Adds pool (save_police_assignment config probe block pool)
unfolding save_police_assignment
save_police_assignment-Adds config probe block pool =
    elim (Result-cases (is_request_processed probe.request_id pool)) [
      | inl (processed, e) ↦ rw (e, save_police_assignment) (split processed e)
      | inr (x, e) ↦ rw (e, save_police_assignment) (unfold Adds in λ pool' h. cc)
    ]
  where
    split :
        (processed : Bool)
        → is_request_processed probe.request_id pool ≡ ok processed
        → Adds pool (
            if processed || not probe.has_assignment
            then ok pool
            else if unconfirmed config probe.block_number block
            then ok pool
            else ok (
                add_evt_to_be_assigned
                  (mk_evt probe.request_id config.audit_contract_address probe.uri probe.price
                    probe.block_number false)
                  pool))
    split true e = Adds-nothing pool
    split false e =
        if_cases (Adds pool) (not probe.has_assignment) (λ _. Adds-nothing pool)
          (λ _.
            if_cases (Adds pool) (unconfirmed config probe.block_number block)
              (λ _. Adds-nothing pool)
              (λ _. Adds-one pool _ (save_evt-Added _ _ _ _ _ false pool e)))

bid-pool :
    (config : Config) (answers : Answers) (s : Polling) → (bid config answers s).pool ≡ s.pool
unfolding bid
bid-pool config answers s = ground arith

-- What a round that ends by a logged exception, or goes on from what was saved, adds.
attempt-Added :
    (pool : Pool) (s : Polling) (rest : Pool → Polling) (r : Result Pool)
    → s.pool ≡ pool
    → ((p : Pool) → (rest p).pool ≡ p)
    → Adds pool r
    → Added pool.rows (attempt r s rest).pool.rows
unfolding Adds
attempt-Added pool s rest (ok p) h k a =
    subst (λ (x : Pool). Added pool.rows x.rows) (sym (k p)) (a p refl)
attempt-Added pool s rest (raise e) h k a = nothing (ap (λ (p : Pool). p.rows) h)

poll_confirmed-Added :
    (config : Config) (answers : Answers) (block : ℕ) (s : Polling)
    → Added s.pool.rows (poll_confirmed config answers block s).pool.rows
unfolding poll_confirmed
poll_confirmed-Added config answers block s =
    elim (Result-cases answers.most_recent_assigned_audit) [
      | inl (audit, e) ↦ rw (e, poll_confirmed) (go audit)
      | inr (x, e) ↦ rw (e, poll_confirmed) (nothing refl)
    ]
  where
    go :
        (audit : Assignment)
        → Added s.pool.rows
            (if not (audit.block_number == 0) && unconfirmed config audit.block_number block
              then s
              else attempt
                  (save_new_assignment audit s.pool)
                  s
                  (λ pool. bid config answers (record s { pool = pool }))).pool.rows
    go audit =
        if_cases (λ (p : Polling). Added s.pool.rows p.pool.rows)
          (not (audit.block_number == 0) && unconfirmed config audit.block_number block)
          (λ _. nothing refl)
          (λ _.
            attempt-Added s.pool s _ (save_new_assignment audit s.pool) refl
              (λ p. bid-pool config answers (record s { pool = p }))
              (save_new_assignment-Adds audit s.pool))

pub poll_audit_request-Added :
    (config : Config) (answers : Answers) (block : ℕ) (s : Polling)
    → Added s.pool.rows (poll_audit_request config answers block s).pool.rows
unfolding poll_audit_request
poll_audit_request-Added config answers block s =
    let police = cached_is_police_officer s.is_police_officer_cached answers.is_police_node in
    if_cases (λ (p : Polling). Added s.pool.rows p.pool.rows)
      (police && not config.enable_police_audit_polling) (λ _. nothing refl)
      (λ _.
        poll_confirmed-Added config answers block
          (record s { is_police_officer_cached = some police }))

pub poll_police_request-Added :
    (config : Config) (answers : Answers) (block : ℕ) (s : Polling)
    → Added s.pool.rows (poll_police_request config answers block s).pool.rows
unfolding poll_police_request
poll_police_request-Added config answers block s =
    let police = cached_is_police_officer s.is_police_officer_cached answers.is_police_node in
    if_cases (λ (p : Polling). Added s.pool.rows p.pool.rows) police
      (λ _. elim (Result-cases answers.next_police_assignment) [
        | inl (probe, e) ↦ rw e (
            attempt-Added s.pool (record s { is_police_officer_cached = some police })
              (λ p. record s { is_police_officer_cached = some police; pool = p })
              (save_police_assignment config probe block s.pool) refl (λ p. refl)
              (save_police_assignment-Adds config probe block s.pool))
        | inr (x, e) ↦ rw e (nothing refl)
      ])
      (λ _. nothing refl)
