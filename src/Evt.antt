-- ===== src/Evt.antt =====
-- evt/evt.py and the columns of the table audit_evt (evt/createdb.sql): an event of the node.
pub mod Decimal
pub mod Codec
use qsp_protocol_node.Prelude.{ℕ, String, Bool, Option, str_eq}
use qsp_protocol_node.Evt.Decimal.{Text}

-- evt_status: 'AS', 'TS', 'SB', 'DN', 'ER'.
pub data Status : Type 0 where
  assigned to_be_submitted submitted done error : Status

-- What the node writes to `status_info`, one constructor for each message. `traceback` and
-- `unexpected` hold what Python's exception says.
pub data StatusInfo : Type 0 where
  audit_assigned report_generated report_submitted report_confirmed : StatusInfo
  max_attempts_reached outside_window submission_timeout : StatusInfo
  resubmitting : ℕ → ℕ → StatusInfo
  traceback unexpected : String → StatusInfo

-- A row or a dictionary of an event: the columns are the keys. `N` is the type of the block
-- numbers and of the price, which the database holds as text.
pub record Event (N : Type 0) : Type 0 where
  pub request_id : ℕ
  pub requestor : String
  pub contract_uri : String
  pub evt_name : String
  pub assigned_block_nbr : N
  pub submission_block_nbr : Option N
  pub fk_status : Status
  pub fk_type : String
  pub price : N
  pub status_info : StatusInfo
  pub tx_hash : Option String
  pub submission_attempts : ℕ
  pub is_persisted : Bool
  pub audit_uri : Option String
  pub audit_hash : Option String
  pub audit_state : Option ℕ
  pub full_report : Option String
  pub compressed_report : Option Text

-- The event as the threads see it.
abbrev pub Evt : Type 0
Evt = Event ℕ

abbrev pub audit_type : String
audit_type = "AU"

abbrev pub police_check_type : String
police_check_type = "PC"

module _ {N : Type 0} where
  unfoldable pub is_audit : Event N → Bool
  is_audit evt = str_eq evt.fk_type audit_type

  unfoldable pub is_police_check : Event N → Bool
  is_police_check evt = str_eq evt.fk_type police_check_type

  unfoldable pub set_evt_as_audit : Event N → Event N
  set_evt_as_audit evt = record evt { fk_type = audit_type }

  unfoldable pub set_evt_as_police_check : Event N → Event N
  set_evt_as_police_check evt = record evt { fk_type = police_check_type }
