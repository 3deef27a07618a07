-- ===== src/Pool/ReadBack.antt =====
-- What the four updates of EventPoolManager (evt/evt_pool_manager.py and evt/*.sql) write, and what
-- get_event_by_request_id then reads.
use qsp_protocol_node.Prelude.{
  ℕ, ◌+◌, ◌≡◌, refl, Bool, false, true, some, List, arith, if◌then◌else◌, ◌==◌, ok, Bool-cases, inl,
  inr, ap, sym, subst, ◌∙◌,
}
use qsp_protocol_node.Evt.{Evt, Status, to_be_submitted, submitted, done, error}
use qsp_protocol_node.Evt.Codec.{Row, encode, decode-encode}
use qsp_protocol_node.Pool.Rows.{find, update, is_active, is_to_be_submitted, any_status}
use qsp_protocol_node.Pool.Rows.Laws.{find-update}
use qsp_protocol_node.Pool.Manager.{
  Pool, decode_row, get_event_by_request_id, set_evt_status_to_be_submitted,
  set_evt_status_to_submitted, set_evt_status_to_done, set_evt_status_to_error,
  to_be_submitted_columns, submitted_columns, done_columns, error_columns,
}

-- The events that are to be read after an event `evt` is written over an event `old`.
abbrev pub made_to_be_submitted : Evt → Evt → Evt
made_to_be_submitted evt old = record old {
  fk_status = to_be_submitted;
  status_info = evt.status_info;
  tx_hash = evt.tx_hash;
  audit_uri = evt.audit_uri;
  audit_hash = evt.audit_hash;
  audit_state = evt.audit_state;
  full_report = evt.full_report;
  compressed_report = evt.compressed_report;
  submission_block_nbr = evt.submission_block_nbr;
  submission_attempts = old.submission_attempts + 1;
}

abbrev pub made_submitted : Evt → Evt → Evt
made_submitted evt old = record old {
  fk_status = submitted;
  status_info = evt.status_info;
  tx_hash = evt.tx_hash;
  audit_uri = evt.audit_uri;
  audit_hash = evt.audit_hash;
  audit_state = evt.audit_state;
}

abbrev pub made_done : Evt → Evt → Evt
made_done evt old = record old {
  fk_status = done;
  status_info = evt.status_info;
  is_persisted = true;
}

abbrev pub made_error : Evt → Evt → Evt
made_error evt old = record old { fk_status = error; status_info = evt.status_info }

-- Reading every request after a write: that of the event is `new` or as it was, others are as they were.
abbrev pub ReadsBack : Pool → Pool → Evt → Bool → Evt → Type 0
ReadsBack pool next old written new =
    (get_event_by_request_id old.request_id next ≡ ok (some (if written then new else old)))
    × ((j : ℕ)
        → (old.request_id == j) ≡ false
        → get_event_by_request_id j next ≡ get_event_by_request_id j pool)

decode_row-encode : (evt : Evt) → decode_row (encode evt) ≡ ok evt
unfolding decode_row
decode_row-encode evt = rw (decode-encode evt, decode_row) refl

get_event-found :
    (id : ℕ) (pool : Pool) (evt : Evt)
    → pool.closed ≡ false
    → find id pool.rows ≡ some (encode evt)
    → get_event_by_request_id id pool ≡ ok (some evt)
unfolding get_event_by_request_id
get_event-found id pool evt open_ f = simp (open_, f, decode_row-encode evt) refl

get_event-same :
    (id : ℕ) (pool next : Pool)
    → next.closed ≡ pool.closed
    → find id next.rows ≡ find id pool.rows
    → get_event_by_request_id id next ≡ get_event_by_request_id id pool
unfolding get_event_by_request_id
get_event-same id pool next c f = simp (c, f) refl

-- A write on an open table.
abbrev Written : (List Row → List Row) → Pool → Pool → Type 0
Written query pool next = (next.closed ≡ false) × (next.rows ≡ query pool.rows)

open-Written :
    (query : List Row → List Row) (pool : Pool)
    → pool.closed ≡ false
    → Written query pool (if pool.closed then pool else record pool { rows = query pool.rows })
open-Written query pool open_ = rw open_ (refl, refl)

-- An update whose columns are those of an encoded event.
update-ReadsBack :
    (guard : Status → Bool) (set : Row → Row)
    → ((row : Row) → (set row).request_id ≡ row.request_id)
    → (pool next : Pool) (id : ℕ) (old new : Evt) → set (encode old) ≡ encode new
    → pool.closed ≡ false
    → old.request_id ≡ id
    → find old.request_id pool.rows ≡ some (encode old)
    → next ≡ (if pool.closed then pool else record pool { rows = update id guard set pool.rows })
    → ReadsBack pool next old (guard (encode old).fk_status) new
update-ReadsBack guard set keeps pool next id old new columns open_ same f n =
    let (still_open, written) =
      subst (Written (update id guard set) pool) (sym n)
        (open-Written (update id guard set) pool open_) in
    let own = old.request_id in
    let i : (id == own) ≡ true = ground arith in
    let e = rw (i, f) at (ap (find own) written ∙ find-update id guard set keeps own pool.rows) in
    (
      elim (Bool-cases (guard (encode old).fk_status)) [
        | inl g ↦
            rw g (get_event-found own next new still_open (e ∙ rw g (ap (λ r. some r) columns)))
        | inr g ↦ rw g (get_event-found own next old still_open (e ∙ rw g refl))
      ],
      λ j other.
          let other' : (id == j) ≡ false = ground arith in
          get_event-same j pool next (still_open ∙ sym open_)
            (ap (find j) written ∙ find-update id guard set keeps j pool.rows ∙ rw other' refl),
    )

-- On an open table that holds an event for the request of the one that is written, each of the four
-- updates is read back: that request is read with exactly the columns of the query set, and with one
-- more attempt where it becomes TS, if its state is one that the query admits (AS, TS or SB for TS and
-- for DN, TS for SB, any for ER); else it is read as it was, and so is every other request.
pub written-ReadsBack :
    (evt old : Evt) (pool : Pool)
    → pool.closed ≡ false
    → old.request_id ≡ evt.request_id
    → find old.request_id pool.rows ≡ some (encode old)
    → ReadsBack pool
        (set_evt_status_to_be_submitted evt pool)
        old
        (is_active old.fk_status)
        (made_to_be_submitted evt old)
      × ReadsBack pool
          (set_evt_status_to_submitted evt pool)
          old
          (is_to_be_submitted old.fk_status)
          (made_submitted evt old)
      × ReadsBack pool
          (set_evt_status_to_done evt pool)
          old
          (is_active old.fk_status)
          (made_done evt old)
      × ReadsBack pool (set_evt_status_to_error evt pool) old true (made_error evt old)
unfolding set_evt_status_to_be_submitted set_evt_status_to_submitted set_evt_status_to_done
    set_evt_status_to_error encode
written-ReadsBack evt old pool open_ same f = (
  update-ReadsBack is_active (to_be_submitted_columns (encode evt)) (λ row. refl) pool _
      evt.request_id old (made_to_be_submitted evt old) refl open_ same f refl,
  update-ReadsBack is_to_be_submitted (submitted_columns (encode evt)) (λ row. refl) pool _
      evt.request_id old (made_submitted evt old) refl open_ same f refl,
  update-ReadsBack is_active (done_columns (encode evt)) (λ row. refl) pool _ evt.request_id old
      (made_done evt old) refl open_ same f refl,
  update-ReadsBack any_status (error_columns (encode evt)) (λ row. refl) pool _ evt.request_id old
      (made_error evt old) refl open_ same f refl,
)
