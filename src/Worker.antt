-- ===== src/Worker.antt =====
-- Sqlite3Worker (utils/db/sql3liteworker.py): one thread runs the queries of all the others, in the
-- order in which they come into its queue. The database (apsw) is a parameter.
pub mod Order
pub mod Drained
use qsp_protocol_node.Prelude.{
  ℕ, ◌+◌, String, Bool, true, false, ◌&&◌, ◌||◌, Option, none, some, List, [], ◌∷◌, ◌++◌, ◌≡◌, ◌<◌,
  if◌then◌else◌, leb, ◌==◌, length,
}
use qsp_protocol_node.Evt.Decimal.{Text}

-- What a caller is given: the rows of a select, or what the error says.
pub data Outcome (Rows : Type 0) : Type 0 where
  rows : Rows → Outcome Rows
  failed : String → Outcome Rows

pub record Query (Values : Type 0) : Type 0 where
  pub text : Text
  pub values : Values

-- The cursor of apsw. `fetchall` is a select; `change` is any other query between `begin` and
-- `commit`, whose error is rolled back. Its errors are apsw.Error; an exception of another class ends
-- the thread, and is not modelled.
pub record Apsw (Db Values Rows : Type 0) : Type 0 where
  pub fetchall : Query Values → Db → Outcome Rows
  pub change : Query Values → Db → Db
  pub error : Query Values → Db → Option String

abbrev is_space : ℕ → Bool
is_space c = c == 32 || (leb 9 c && leb c 13)

-- `strip` on the left, `lower` and `startswith`.
abbrev lower : ℕ → ℕ
lower c = if leb b'A' c && leb c b'Z' then c + 32 else c

unfoldable pub strip : Text → Text
strip [] = []
strip (c ∷ s) = let rest = strip s in if is_space c then rest else c ∷ s

unfoldable pub starts_with : Text → Text → Bool
starts_with [] s = true
starts_with (c ∷ prefix) [] = false
starts_with (c ∷ prefix) (d ∷ s) = c == lower d && starts_with prefix s

unfoldable pub is_select : Text → Bool
unfolding strip starts_with
is_select query = starts_with (b's' ∷ b'e' ∷ b'l' ∷ b'e' ∷ b'c' ∷ b't' ∷ []) (strip query)

module _ {R : Type 0} where
  -- `token in self.results`, and its value.
  unfoldable pub get_result : ℕ → List (ℕ × R) → Option R
  get_result token [] = none
  get_result token ((t, r) ∷ results) = if t == token then some r else get_result token results

  -- `del self.results[token]`
  unfoldable pub del_result : ℕ → List (ℕ × R) → List (ℕ × R)
  del_result token [] = []
  del_result token ((t, r) ∷ results) =
      let rest = del_result token results in if t == token then rest else (t, r) ∷ rest

-- A token is a number here. An entry of the queue is a query with its token, or the exit token.
-- `callers` are the queries of those calls of `execute` that have passed its test of `exit_set`.
pub record Worker (Db Values Rows : Type 0) : Type 0 where
  pub db : Db
  pub sql_queue : List (Option (ℕ × Query Values))
  pub results : List (ℕ × Outcome Rows)
  pub exit_set : Bool
  pub thread_running : Bool
  pub callers : List (Query Values)

module _ {Db Values Rows : Type 0} (apsw : Apsw Db Values Rows) where
  -- What a query puts into `results`: a select always something, any other query only its error.
  unfoldable pub outcome : Query Values → Db → Option (Outcome Rows)
  outcome query db =
      if is_select query.text
      then some (apsw.fetchall query db)
      else elim (apsw.error query db) [ none ↦ none | some err ↦ some (failed err) ]

  -- The database after a query: a select leaves it, and so does an error, by `rollback`.
  unfoldable pub next_db : Query Values → Db → Db
  next_db query db =
      if is_select query.text
      then db
      else elim (apsw.error query db) [ none ↦ apsw.change query db | some err ↦ db ]

  -- `self.results[token] = ...`, if there is something to put.
  abbrev put_result : ℕ → Option (Outcome Rows) → List (ℕ × Outcome Rows) → List (ℕ × Outcome Rows)
  put_result token none results = results
  put_result token (some r) results = (token, r) ∷ results

  unfoldable pub run_query : ℕ → Query Values → Worker Db Values Rows → Worker Db Values Rows
  unfolding outcome next_db
  run_query token query w = record w {
    db = next_db query w.db;
    results = put_result token (outcome query w.db) w.results;
  }

  abbrev pub is_empty : List (Option (ℕ × Query Values)) → Bool
  is_empty [] = true
  is_empty (entry ∷ entries) = false

  -- The end of a round: only exit if the queue is empty.
  unfoldable pub exit_if_done : Worker Db Values Rows → Worker Db Values Rows
  exit_if_done w =
      if w.exit_set && is_empty w.sql_queue then record w { thread_running = false } else w

  -- The body of a round, for the entry that was taken.
  unfoldable pub run_entry :
      Option (ℕ × Query Values) → Worker Db Values Rows → Worker Db Values Rows
  unfolding run_query
  run_entry none w = w
  run_entry (some (token, query)) w = run_query token query w

  -- One round of `run`; with an empty queue the thread waits, and once it is not running it has
  -- returned.
  unfoldable pub round : Worker Db Values Rows → Worker Db Values Rows
  unfolding run_entry exit_if_done
  round w =
      if w.thread_running
      then elim w.sql_queue [
        | [] ↦ w
        | entry ∷ entries ↦ exit_if_done (run_entry entry (record w { sql_queue = entries }))
      ]
      else w

  -- `execute` and `close` put an entry.
  unfoldable pub put : Option (ℕ × Query Values) → Worker Db Values Rows → Worker Db Values Rows
  put entry w = record w { sql_queue = w.sql_queue ++ entry ∷ [] }
