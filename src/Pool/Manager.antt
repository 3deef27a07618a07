-- ===== src/Pool/Manager.antt =====
-- The methods of EventPoolManager. `closed` is the worker's `exit_set`: after `close` a query
-- returns EXIT_TOKEN, which `__exec_sql` turns into no rows.
use qsp_protocol_node.Prelude.{
  ℕ, ◌+◌, Bool, true, false, Option, none, some, List, [], ◌∷◌, if◌then◌else◌, Result, ok, raise,
  value_error, ◌>>=◌,
}
use qsp_protocol_node.Evt.{Evt, assigned, to_be_submitted, submitted, done, error}
use qsp_protocol_node.Evt.Codec.{Row, encode, decode}
use qsp_protocol_node.Pool.Rows.{
  select, find, insert, update, is_assigned, is_to_be_submitted, is_submitted, is_active,
  any_status,
}

pub record Pool : Type 0 where
  pub rows : List Row
  pub closed : Bool

-- A write is dropped once the worker has been told to exit.
abbrev write : Pool → (List Row → List Row) → Pool
write pool query = if pool.closed then pool else record pool { rows = query pool.rows }

-- A select returns no rows once the worker has been told to exit.
abbrev read : Pool → (List Row → List Row) → List Row
read pool query = if pool.closed then [] else query pool.rows

-- add_evt_to_be_assigned.sql: the columns that it names, and the defaults of createdb.sql.
abbrev pub inserted_columns : Row → Row
inserted_columns evt = record {
  request_id = evt.request_id;
  requestor = evt.requestor;
  contract_uri = evt.contract_uri;
  evt_name = evt.evt_name;
  assigned_block_nbr = evt.assigned_block_nbr;
  submission_block_nbr = none;
  fk_status = assigned;
  fk_type = evt.fk_type;
  price = evt.price;
  status_info = evt.status_info;
  tx_hash = none;
  submission_attempts = 0;
  is_persisted = false;
  audit_uri = none;
  audit_hash = none;
  audit_state = none;
  full_report = none;
  compressed_report = none;
}

unfoldable pub add_evt_to_be_assigned : Evt → Pool → Pool
add_evt_to_be_assigned evt pool = write pool (insert (inserted_columns (encode evt)))

-- `int` raises ValueError on a text that is no number.
unfoldable pub decode_row : Row → Result Evt
decode_row row = elim (decode row) [
  | none ↦ raise (value_error "invalid literal for int()")
  | some evt ↦ ok evt
]

-- The row that `get_first` keeps, decoded; `none` is the empty dictionary.
decode_first : Option Row → Result (Option Evt)
unfolding decode_row
decode_first none = ok none
decode_first (some row) = do evt ← decode_row row; ok (some evt)

unfoldable pub get_event_by_request_id : ℕ → Pool → Result (Option Evt)
unfolding decode_first
get_event_by_request_id id pool = if pool.closed then ok none else decode_first (find id pool.rows)

abbrev is_some : Option Evt → Bool
is_some none = false
is_some (some _) = true

unfoldable pub is_request_processed : ℕ → Pool → Result Bool
unfolding get_event_by_request_id
is_request_processed id pool = do row ← get_event_by_request_id id pool; ok (is_some row)

-- The rows over which `process_incoming_events`, `process_events_to_be_submitted` and
-- `process_submission_events` loop.
unfoldable pub get_events_to_be_processed : Pool → List Row
get_events_to_be_processed pool = read pool (select is_assigned)

unfoldable pub get_events_to_be_submitted : Pool → List Row
get_events_to_be_submitted pool = read pool (select is_to_be_submitted)

unfoldable pub get_events_to_be_monitored : Pool → List Row
get_events_to_be_monitored pool = read pool (select is_submitted)

-- __process_evt_with_status: the loop over the rows of a select, with the state that the handler
-- changes passed along. A row that does not decode ends the loop by its ValueError.
unfoldable pub process_evts : {S : Type 0} → (Evt → S → S) → List Row → S → Result S
process_evts fct [] s = ok s
process_evts fct (row ∷ rows) s = do evt ← decode_row row; process_evts fct rows (fct evt s)

-- set_evt_status_to_be_submitted.sql
abbrev pub to_be_submitted_columns : Row → Row → Row
to_be_submitted_columns evt row = record row {
  fk_status = to_be_submitted;
  status_info = evt.status_info;
  tx_hash = evt.tx_hash;
  audit_uri = evt.audit_uri;
  audit_hash = evt.audit_hash;
  audit_state = evt.audit_state;
  full_report = evt.full_report;
  compressed_report = evt.compressed_report;
  submission_block_nbr = evt.submission_block_nbr;
  submission_attempts = row.submission_attempts + 1;
}

-- set_evt_status_to_submitted.sql
abbrev pub submitted_columns : Row → Row → Row
submitted_columns evt row = record row {
  fk_status = submitted;
  tx_hash = evt.tx_hash;
  status_info = evt.status_info;
  audit_uri = evt.audit_uri;
  audit_hash = evt.audit_hash;
  audit_state = evt.audit_state;
}

-- set_evt_status_to_done.sql
abbrev pub done_columns : Row → Row → Row
done_columns evt row = record row {
  fk_status = done;
  status_info = evt.status_info;
  is_persisted = true;
}

-- set_evt_status_to_error.sql
abbrev pub error_columns : Row → Row → Row
error_columns evt row = record row { fk_status = error; status_info = evt.status_info }

unfoldable pub set_evt_status_to_be_submitted : Evt → Pool → Pool
set_evt_status_to_be_submitted evt pool =
    write pool (update evt.request_id is_active (to_be_submitted_columns (encode evt)))

unfoldable pub set_evt_status_to_submitted : Evt → Pool → Pool
set_evt_status_to_submitted evt pool =
    write pool (update evt.request_id is_to_be_submitted (submitted_columns (encode evt)))

unfoldable pub set_evt_status_to_done : Evt → Pool → Pool
set_evt_status_to_done evt pool =
    write pool (update evt.request_id is_active (done_columns (encode evt)))

unfoldable pub set_evt_status_to_error : Evt → Pool → Pool
set_evt_status_to_error evt pool =
    write pool (update evt.request_id any_status (error_columns (encode evt)))

unfoldable pub close : Pool → Pool
close pool = record pool { closed = true }
