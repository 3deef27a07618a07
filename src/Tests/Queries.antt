-- ===== src/Tests/Queries.antt =====
-- The worker runs an insert and a select of two threads.
use qsp_protocol_node.Prelude.{ℕ, ◌≡◌, refl, false, true, none, some, List, [], ◌∷◌, ◌++◌, arith}
use qsp_protocol_node.Worker.{Outcome, rows, Query, Apsw, Worker, get_result, is_select, round, put}
use qsp_protocol_node.Worker.Order.{
  pending, final_db, Answered, Run, started, execute, accept, turn, Run-refines,
}
use qsp_protocol_node.Worker.Drained.{rounds, HasResult, rounds-served}

-- A table of numbers: an insert appends its value, and a select gives all of it.
abbrev table : Apsw (List ℕ) ℕ (List ℕ)
table = record {
  fetchall = λ query db. rows db;
  change = λ query db. db ++ query.values ∷ [];
  error = λ query db. none;
}

abbrev insert_seven : Query ℕ
insert_seven = record { text = b'i' ∷ b'n' ∷ b's' ∷ b'e' ∷ b'r' ∷ b't' ∷ []; values = 7 }

abbrev select_all : Query ℕ
select_all = record {
  text = b' ' ∷ b'S' ∷ b'e' ∷ b'l' ∷ b'e' ∷ b'c' ∷ b't' ∷ b' ' ∷ b'*' ∷ [];
  values = 0;
}

abbrev called : Worker (List ℕ) ℕ (List ℕ)
called = record {
  db = [];
  sql_queue = some (1, insert_seven) ∷ some (2, select_all) ∷ [];
  results = [];
  exit_set = false;
  thread_running = true;
  callers = [];
}

to_called : Run table 100 [] called ((1, insert_seven) ∷ (2, select_all) ∷ [])
unfolding put
to_called =
    accept
      (accept (execute (execute started select_all refl) insert_seven refl) 1 insert_seven []
        (select_all ∷ []) refl (omega arith))
      2 select_all [] [] refl (omega arith)

abbrev inserted : Worker (List ℕ) ℕ (List ℕ)
inserted = round table called

Run-refines_example :
    (final_db table inserted.db (pending inserted.sql_queue)
      ≡ final_db table [] ((1, insert_seven) ∷ (2, select_all) ∷ []))
    × ((token : ℕ) (r : Outcome (List ℕ))
        → get_result token inserted.results ≡ some r
        → Answered table [] ((1, insert_seven) ∷ (2, select_all) ∷ []) token r)
Run-refines_example =
    Run-refines table 100 [] inserted ((1, insert_seven) ∷ (2, select_all) ∷ [])
      (turn to_called refl)

is_select_all : is_select select_all.text ≡ true
unfolding is_select
is_select_all = refl

-- The worker is told to exit while both are in its queue.
abbrev told_to_exit : Worker (List ℕ) ℕ (List ℕ)
told_to_exit = record called { exit_set = true }

rounds-served_example :
    ((rounds table 2 told_to_exit).sql_queue ≡ [])
    × ((rounds table 2 told_to_exit).thread_running ≡ false)
    × HasResult table 2 (rounds table 2 told_to_exit)
rounds-served_example =
    rounds-served table told_to_exit 2 select_all (some (1, insert_seven) ∷ []) [] refl refl
      is_select_all
