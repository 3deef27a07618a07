-- ===== src/Pool/Rows/Laws.antt =====
-- Looking up a request after an insertion or an update.
use mathlib.Core.Option
use qsp_protocol_node.Prelude.{
  ℕ, ◌≡◌, refl, Bool, Bool-cases, inl, inr, true, false, none, some, List, [], ◌∷◌, ◌++◌, arith,
  if◌then◌else◌, ◌==◌,
}
use qsp_protocol_node.Evt.{Status}
use qsp_protocol_node.Evt.Codec.{Row}
use qsp_protocol_node.Pool.Rows.{find, select, insert, has_key, update}

-- One row under an update of another request or of its own.
abbrev pub updated : (Status → Bool) → (Row → Row) → Row → Row
updated guard set row = if guard row.fk_status then set row else row

-- A request that is updated is found with its row set if the guard holds; others are untouched.
pub find-update :
    (id : ℕ) (guard : Status → Bool) (set : Row → Row)
    → ((row : Row) → (set row).request_id ≡ row.request_id)
    → (j : ℕ) (rows : List Row)
    → find j (update id guard set rows)
      ≡ (if id == j then Option.map (updated guard set) (find j rows) else find j rows)
unfolding find update
find-update id guard set keeps j [] = ground arith
find-update id guard set keeps j (row ∷ rows) =
    ground (arith, keeps row, find-update id guard set keeps j rows)

pub find-append_new :
    (j : ℕ) (row : Row) (rows : List Row)
    → find j (rows ++ row ∷ [])
      ≡ (if row.request_id == j then Option.or_else (find j rows) (some row) else find j rows)
unfolding find Option.or_else
find-append_new j row [] = ground arith
find-append_new j row (r ∷ rows) = ground (arith, find-append_new j row rows)

pub has_key-of_find-none :
    (id : ℕ) (rows : List Row) (row : Row)
    → row.request_id ≡ id
    → find id rows ≡ none
    → has_key row.request_id row.fk_type rows ≡ false
unfolding find has_key
has_key-of_find-none id [] row e h = refl
has_key-of_find-none id (r ∷ rows) row e h = ground (arith, has_key-of_find-none id rows row e)

-- A request that is not in the table is added at the end.
pub insert-new :
    (rows : List Row) (row : Row)
    → find row.request_id rows ≡ none
    → insert row rows ≡ rows ++ row ∷ []
unfolding insert
insert-new rows row h = ground (arith, has_key-of_find-none row.request_id rows row refl h)

pub find_id : (id : ℕ) (rows : List Row) (row : Row) → find id rows ≡ some row → row.request_id ≡ id
unfolding find
find_id id [] row h = cc
find_id id (r ∷ rows) row h = ground (arith, find_id id rows row)

-- The row of a request is among those of a select that admits its state.
pub select-of_find :
    (test : Status → Bool) (id : ℕ) (rows : List Row) (row : Row)
    → find id rows ≡ some row
    → test row.fk_status ≡ true
    → (before after : List Row) × (select test rows ≡ before ++ (row ∷ after))
unfolding find select
select-of_find test id [] row f t = absurd cc
select-of_find test id (r ∷ rows) row f t = elim (Bool-cases (r.request_id == id)) [
  | inl e ↦ let same : r ≡ row = ground arith in ([], select test rows, ground arith)
  | inr e ↦
      let (before, after, rest) = select-of_find test id rows row (ground arith) t in
      elim (Bool-cases (test r.fk_status)) [
        | inl a ↦ (r ∷ before, after, ground arith)
        | inr a ↦ (before, after, ground arith)
      ]
]
