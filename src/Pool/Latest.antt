-- ===== src/Pool/Latest.antt =====
-- get_latest_block_number, get_next_block_number and get_latest_request_id
-- (evt/evt_pool_manager.py, evt/get_latest_*.sql). No thread calls them.
use qsp_protocol_node.Prelude.{
  ℕ, ◌+◌, ◌≤◌, ℤ, pos, negsuc, Bool, true, false, Option, none, some, List, [], ◌∷◌, arith,
  if◌then◌else◌, ltb, ◌==◌, max, All, Result, ok, raise, value_error, other, ◌>>=◌,
}
use qsp_protocol_node.Evt.Decimal.{Text, int}
use qsp_protocol_node.Evt.Codec.{Row}
use qsp_protocol_node.Pool.Manager.{Pool}

-- The order of texts in SQLite, and its `max` over a column of texts.
unfoldable pub is_before : Text → Text → Bool
is_before s [] = false
is_before [] (d ∷ t) = true
is_before (c ∷ s) (d ∷ t) = if c == d then is_before s t else ltb c d

unfoldable pub max_text : Text → List Row → Text
unfolding is_before
max_text s [] = s
max_text s (row ∷ rows) =
    max_text (if is_before s row.assigned_block_nbr then row.assigned_block_nbr else s) rows

unfoldable pub max_id : ℕ → List Row → ℕ
max_id id [] = id
max_id id (row ∷ rows) = max_id (max id row.request_id) rows

-- The block of the last event, -1 if there is none; after `close` there is no row and so no value.
unfoldable pub get_latest_block_number : Pool → Result (Option ℤ)
unfolding max_text int
get_latest_block_number pool = if pool.closed then ok none else elim pool.rows [
  | [] ↦ ok (some (negsuc 0))
  | row ∷ rows ↦ elim (int (max_text row.assigned_block_nbr rows)) [
    | none ↦ raise (value_error "invalid literal for int()")
    | some n ↦ ok (some (pos n))
  ]
]

-- `current < 0 or current is None`: None has no order, so that the first test raises on it.
unfoldable pub get_next_block_number : Pool → Result ℕ
unfolding get_latest_block_number
get_next_block_number pool = do
  current ← get_latest_block_number pool
  elim current [
    | none ↦ raise (other "'<' not supported")
    | some n ↦ elim n [ negsuc k ↦ ok 0 | pos k ↦ ok (k + 1) ]
  ]

unfoldable pub get_latest_request_id : Pool → Option ℤ
unfolding max_id
get_latest_request_id pool = if pool.closed then none else elim pool.rows [
  | [] ↦ some (negsuc 0)
  | row ∷ rows ↦ some (pos (max_id row.request_id rows))
]

max_id-le : (id : ℕ) (rows : List Row) → id ≤ max_id id rows
unfolding max_id
max_id-le id [] = omega arith
max_id-le id (row ∷ rows) = omega (arith, max_id-le (max id row.request_id) rows)

-- No request has a higher number than the latest.
pub max_id-All : (id : ℕ) (rows : List Row) → All (λ row. row.request_id ≤ max_id id rows) rows
unfolding max_id
max_id-All id [] = tt
max_id-All id (row ∷ rows) =
    (omega (arith, max_id-le (max id row.request_id) rows), max_id-All (max id row.request_id) rows)
