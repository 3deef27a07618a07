-- ===== src/Pool/Rows.antt =====
-- The queries of evt/*.sql, over the rows of the table.
pub mod Laws
pub mod Unique
use qsp_protocol_node.Prelude.{
  ℕ, suc, String, Bool, true, false, ◌&&◌, Option, none, some, List, [], ◌∷◌, ◌++◌, str_eq,
  if◌then◌else◌, ◌==◌,
}
use qsp_protocol_node.Evt.{Status, assigned, to_be_submitted, submitted, done, error, StatusInfo}
use qsp_protocol_node.Evt.Codec.{Row}

abbrev pub is_assigned : Status → Bool
is_assigned assigned = true
is_assigned _ = false

abbrev pub is_to_be_submitted : Status → Bool
is_to_be_submitted to_be_submitted = true
is_to_be_submitted _ = false

abbrev pub is_submitted : Status → Bool
is_submitted submitted = true
is_submitted _ = false

-- fk_status in ('AS', 'TS', 'SB')
abbrev pub is_active : Status → Bool
is_active done = false
is_active error = false
is_active _ = true

-- select * from audit_evt where fk_status = ...
unfoldable pub select : (Status → Bool) → List Row → List Row
select test [] = []
select test (row ∷ rows) =
    let rest = select test rows in if test row.fk_status then row ∷ rest else rest

-- select * from audit_evt where request_id = ...; the first row, which is all that `get_first` keeps
unfoldable pub find : ℕ → List Row → Option Row
find id [] = none
find id (row ∷ rows) = if row.request_id == id then some row else find id rows

-- primary key(request_id, fk_type)
unfoldable pub has_key : ℕ → String → List Row → Bool
has_key id type [] = false
has_key id type (row ∷ rows) =
    if row.request_id == id && str_eq row.fk_type type then true else has_key id type rows

-- insert into audit_evt; a row with a key that is taken is a ConstraintError
unfoldable pub insert : Row → List Row → List Row
unfolding has_key
insert row rows = if has_key row.request_id row.fk_type rows then rows else rows ++ row ∷ []

-- update audit_evt set ... where request_id = id and guard(fk_status)
unfoldable pub update : ℕ → (Status → Bool) → (Row → Row) → List Row → List Row
update id guard set [] = []
update id guard set (row ∷ rows) =
    (if row.request_id == id && guard row.fk_status then set row else row)
    ∷ update id guard set rows

abbrev pub any_status : Status → Bool
any_status _ = true
