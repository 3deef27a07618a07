-- ===== src/Pool/Rows/Unique.antt =====
-- Request ids are unique in the table: stronger than its primary key, which has the type too.
use qsp_protocol_node.Prelude.{ℕ, ◌≡◌, refl, Bool, none, some, List, [], ◌∷◌, ◌++◌, arith}
use qsp_protocol_node.Evt.{Status}
use qsp_protocol_node.Evt.Codec.{Row}
use qsp_protocol_node.Pool.Rows.{find, update}
use qsp_protocol_node.Pool.Rows.Laws.{find-update, find-append_new}

abbrev pub UniqueIds : List Row → Type 0
UniqueIds [] = Unit {0}
UniqueIds (row ∷ rows) = (find row.request_id rows ≡ none) × UniqueIds rows

pub update-UniqueIds :
    (id : ℕ) (guard : Status → Bool) (set : Row → Row)
    → ((row : Row) → (set row).request_id ≡ row.request_id)
    → (rows : List Row) → UniqueIds rows
    → UniqueIds (update id guard set rows)
unfolding update
update-UniqueIds id guard set keeps [] u = tt
update-UniqueIds id guard set keeps (row ∷ rows) u = (
  ground (arith, keeps row, find-update id guard set keeps row.request_id rows),
  update-UniqueIds id guard set keeps rows u.1,
)

pub append_new-UniqueIds :
    (row : Row) (rows : List Row)
    → UniqueIds rows
    → find row.request_id rows ≡ none
    → UniqueIds (rows ++ row ∷ [])
unfolding find
append_new-UniqueIds row [] u h = (refl, tt)
append_new-UniqueIds row (r ∷ rows) u h = (
  ground (arith, find-append_new r.request_id row rows),
  append_new-UniqueIds row rows u.1 (ground arith),
)

-- A row that a `select` returns is the row of its request.
abbrev pub Current : List Row → Row → Type 0
Current rows row = find row.request_id rows ≡ some row
