-- ===== src/Worker/Order.antt =====
-- All threads together: what the worker answers is what running each query at once, in the order in
-- which they are accepted, answers.
use qsp_protocol_node.Prelude.{
  ℕ, ◌≡◌, refl, ◌<◌, true, false, Option, none, some, List, [], ◌∷◌, ◌++◌, arith, length,
  if◌then◌else◌, ◌==◌, ap, sym, ◌∙◌, subst, append_assoc, append-nil, if_cases, Bool-cases, inl,
  inr, ◌⊎◌,
}
use qsp_protocol_node.Worker.{
  Outcome, Query, Apsw, Worker, get_result, del_result, outcome, next_db, put_result, run_query,
  run_entry, exit_if_done, round, put,
}

-- The queries that an entry of the queue, and the whole queue, stand for.
abbrev pub pending {ℓ} : {A : Type ℓ} → List (Option A) → List A
pending [] = []
pending (none ∷ entries) = pending entries
pending (some a ∷ entries) = a ∷ pending entries

pub pending-append {ℓ} :
    {A : Type ℓ} (xs ys : List (Option A)) → pending (xs ++ ys) ≡ pending xs ++ pending ys
pending-append [] ys = refl
pending-append (none ∷ xs) ys = pending-append xs ys
pending-append (some a ∷ xs) ys = ap (λ t. a ∷ t) (pending-append xs ys)

module _ {R : Type 0} where
  get-del_result :
      (t u : ℕ) (results : List (ℕ × R))
      → get_result u (del_result t results) ≡ (if t == u then none else get_result u results)
  unfolding get_result del_result
  get-del_result t u [] = ground arith
  get-del_result t u ((v, r) ∷ results) = ground (arith, get-del_result t u results)

module _ {Db Values Rows : Type 0} (apsw : Apsw Db Values Rows) where
  -- The database after some queries, run one after the other.
  abbrev pub final_db : Db → List (ℕ × Query Values) → Db
  final_db db [] = db
  final_db db ((token, query) ∷ queries) = final_db (next_db apsw query db) queries

  pub final_db-append :
      (db : Db) (xs ys : List (ℕ × Query Values))
      → final_db db (xs ++ ys) ≡ final_db (final_db db xs) ys
  final_db-append db [] ys = refl
  final_db-append db ((token, query) ∷ xs) ys = final_db-append (next_db apsw query db) xs ys

  -- A query with this token was accepted, and this is its outcome on the database as all the
  -- queries that were accepted before it have left it.
  abbrev pub Answered : Db → List (ℕ × Query Values) → ℕ → Outcome Rows → Type 0
  Answered db accepted token r =
      (before : List (ℕ × Query Values)) × (query : Query Values) × (after : List
        (ℕ × Query Values))
      × (accepted ≡ before ++ ((token, query) ∷ after))
      × (outcome apsw query (final_db db before) ≡ some r)

  Answered-append :
      (db : Db) (xs ys : List (ℕ × Query Values)) (token : ℕ) (r : Outcome Rows)
      → Answered db xs token r
      → Answered db (xs ++ ys) token r
  Answered-append db xs ys token r (before, query, after, split, out) = (
    before,
    query,
    after ++ ys,
    ap (λ l. l ++ ys) split ∙ append_assoc before ((token, query) ∷ after) ys,
    out,
  )

  -- The worker as all threads together use it, over the queries that it has accepted so far. A call
  -- of `execute` tests `exit_set` first and puts its query later: others may act between the two.
  pub data Run (max_queue_size : ℕ) (db : Db)
      : Worker Db Values Rows → List (ℕ × Query Values) → Type 0 where
    started :
        Run max_queue_size db
          (record {
            db = db;
            sql_queue = [];
            results = [];
            exit_set = false;
            thread_running = true;
            callers = [];
          })
          []
    execute :
        {w : Worker Db Values Rows} {accepted : List (ℕ × Query Values)}
        → Run max_queue_size db w accepted
        → (query : Query Values) → w.exit_set ≡ false
        → Run max_queue_size db (record w { callers = query ∷ w.callers }) accepted
    accept :
        {w : Worker Db Values Rows} {accepted : List (ℕ × Query Values)}
        → Run max_queue_size db w accepted
        → (token : ℕ) (query : Query Values) (before after : List (Query Values))
        → w.callers ≡ before ++ (query ∷ after)
        → length w.sql_queue < max_queue_size
        → Run max_queue_size db
            (put apsw (some (token, query)) (record w { callers = before ++ after }))
            (accepted ++ (token, query) ∷ [])
    -- The queue stays full for five seconds: the call raises.
    full :
        {w : Worker Db Values Rows} {accepted : List (ℕ × Query Values)}
        → Run max_queue_size db w accepted
        → (query : Query Values) (before after : List (Query Values))
        → w.callers ≡ before ++ (query ∷ after)
        → Run max_queue_size db (record w { callers = before ++ after }) accepted
    turn :
        {w : Worker Db Values Rows} {accepted : List (ℕ × Query Values)}
        → Run max_queue_size db w accepted
        → w.thread_running ≡ true
        → Run max_queue_size db (round apsw w) accepted
    query_results :
        {w : Worker Db Values Rows} {accepted : List (ℕ × Query Values)}
        → Run max_queue_size db w accepted
        → (token : ℕ) (r : Outcome Rows) → get_result token w.results ≡ some r
        → Run max_queue_size db (record w { results = del_result token w.results }) accepted
    close :
        {w : Worker Db Values Rows} {accepted : List (ℕ × Query Values)}
        → Run max_queue_size db w accepted
        → length w.sql_queue < max_queue_size
        → Run max_queue_size db (put apsw none (record w { exit_set = true })) accepted
    close_full :
        {w : Worker Db Values Rows} {accepted : List (ℕ × Query Values)}
        → Run max_queue_size db w accepted
        → Run max_queue_size db (record w { exit_set = true }) accepted

  -- Some of the accepted queries have been served, in their order, and the others are in the queue.
  pub record IsInOrder (db : Db) (w : Worker Db Values Rows) (accepted : List (ℕ × Query Values))
      : Type 0 where
    pub served : List (ℕ × Query Values)
    pub accepted_eq : accepted ≡ served ++ pending w.sql_queue
    pub db_eq : w.db ≡ final_db db served
    pub answered :
        (token : ℕ) (r : Outcome Rows)
        → get_result token w.results ≡ some r
        → Answered db served token r

  put-IsInOrder :
      (db : Db) (w : Worker Db Values Rows) (accepted : List (ℕ × Query Values))
      (entry : Option (ℕ × Query Values))
      → IsInOrder db w accepted
      → IsInOrder db (put apsw entry w) (accepted ++ pending (entry ∷ []))
  unfolding put
  put-IsInOrder db w accepted entry h = record {
    served = h.served;
    accepted_eq =
        ap (λ l. l ++ pending (entry ∷ [])) h.accepted_eq
        ∙ append_assoc h.served (pending w.sql_queue) (pending (entry ∷ []))
        ∙ ap (λ l. h.served ++ l) (sym (pending-append w.sql_queue (entry ∷ [])));
    db_eq = h.db_eq;
    answered = h.answered;
  }

  put_result-cases :
      (token u : ℕ) (o : Option (Outcome Rows)) (results : List (ℕ × Outcome Rows))
      (r : Outcome Rows)
      → get_result u (put_result apsw token o results) ≡ some r
      → (get_result u results ≡ some r) ⊎ ((token ≡ u) × (o ≡ some r))
  unfolding get_result
  put_result-cases token u none results r h = inl h
  put_result-cases token u (some s) results r h = ground arith

  run_query-IsInOrder :
      (db : Db) (w : Worker Db Values Rows) (accepted : List (ℕ × Query Values)) (token : ℕ)
      (query : Query Values)
      → (entries : List (Option (ℕ × Query Values))) → w.sql_queue ≡ some (token, query) ∷ entries
      → IsInOrder db w accepted
      → IsInOrder db (run_query apsw token query (record w { sql_queue = entries })) accepted
  unfolding run_query
  run_query-IsInOrder db w accepted token query entries q h = record {
    served = h.served ++ (token, query) ∷ [];
    accepted_eq =
        h.accepted_eq
        ∙ ap (λ l. h.served ++ pending l) q
        ∙ sym (append_assoc h.served ((token, query) ∷ []) (pending entries));
    db_eq =
        ap (next_db apsw query) h.db_eq ∙ sym (final_db-append db h.served ((token, query) ∷ []));
    answered = λ u r e. elim (put_result-cases token u (outcome apsw query w.db) w.results r e) [
      | inl old ↦ Answered-append db h.served ((token, query) ∷ []) u r (h.answered u r old)
      | inr (same, out) ↦ (
        h.served,
        query,
        [],
        ap (λ t. h.served ++ (t, query) ∷ []) same,
        ap (outcome apsw query) (sym h.db_eq) ∙ out,
      )
    ];
  }

  exit_if_done-IsInOrder :
      (db : Db) (w : Worker Db Values Rows) (accepted : List (ℕ × Query Values))
      → IsInOrder db w accepted
      → IsInOrder db (exit_if_done apsw w) accepted
  unfolding exit_if_done
  exit_if_done-IsInOrder db w accepted h =
      if_cases (λ (v : Worker Db Values Rows). IsInOrder db v accepted) _
        (λ _. record {
          served = h.served;
          accepted_eq = h.accepted_eq;
          db_eq = h.db_eq;
          answered = h.answered;
        })
        (λ _. h)

  run_entry-IsInOrder :
      (db : Db) (w : Worker Db Values Rows) (accepted : List (ℕ × Query Values))
      (entry : Option (ℕ × Query Values))
      → (entries : List (Option (ℕ × Query Values))) → w.sql_queue ≡ entry ∷ entries
      → IsInOrder db w accepted
      → IsInOrder db (run_entry apsw entry (record w { sql_queue = entries })) accepted
  unfolding run_entry
  run_entry-IsInOrder db w accepted none entries q h = record {
    served = h.served;
    accepted_eq = h.accepted_eq ∙ ap (λ l. h.served ++ pending l) q;
    db_eq = h.db_eq;
    answered = h.answered;
  }
  run_entry-IsInOrder db w accepted (some (token, query)) entries q h =
      run_query-IsInOrder db w accepted token query entries q h

  list_cases :
      (queue : List (Option (ℕ × Query Values)))
      → (queue ≡ [])
        ⊎ ((entry : Option (ℕ × Query Values)) × (entries : List (Option (ℕ × Query Values)))
            × (queue ≡ entry ∷ entries))
  list_cases [] = inl refl
  list_cases (entry ∷ entries) = inr (entry, entries, refl)

  pub round-cases :
      (w : Worker Db Values Rows) (queue : List (Option (ℕ × Query Values)))
      → w.sql_queue ≡ queue
      → (round apsw w ≡ w)
        ⊎ ((entry : Option (ℕ × Query Values)) × (entries : List (Option (ℕ × Query Values)))
            × (w.sql_queue ≡ entry ∷ entries)
            × (round apsw w
                ≡ exit_if_done apsw (run_entry apsw entry (record w { sql_queue = entries }))))
  unfolding round
  round-cases w queue q = elim (Bool-cases w.thread_running) [
    | inr e ↦ inl (simp e refl)
    | inl e ↦ elim (list_cases queue) [
      | inl none_left ↦ inl (simp (e, q ∙ none_left) refl)
      | inr (entry, entries, c) ↦ inr (entry, entries, q ∙ c, simp (e, q ∙ c) refl)
    ]
  ]

  round-IsInOrder :
      (db : Db) (w : Worker Db Values Rows) (accepted : List (ℕ × Query Values))
      → IsInOrder db w accepted
      → IsInOrder db (round apsw w) accepted
  round-IsInOrder db w accepted h = elim (round-cases w w.sql_queue refl) [
    | inl same ↦ subst (λ v. IsInOrder db v accepted) (sym same) h
    | inr (entry, entries, q, e) ↦
        subst (λ v. IsInOrder db v accepted) (sym e)
          (exit_if_done-IsInOrder db _ accepted
            (run_entry-IsInOrder db w accepted entry entries q h))
  ]

  del_result-kept :
      (t u : ℕ) (results : List (ℕ × Outcome Rows)) (r : Outcome Rows)
      → get_result u (del_result t results) ≡ some r
      → get_result u results ≡ some r
  del_result-kept t u results r h = ground (arith, get-del_result t u results)

  pub Run-IsInOrder :
      (max_queue_size : ℕ) (db : Db) {w : Worker Db Values Rows}
      {accepted : List (ℕ × Query Values)}
      → Run max_queue_size db w accepted
      → IsInOrder db w accepted
  Run-IsInOrder max db started = record {
    served = [];
    accepted_eq = refl;
    db_eq = refl;
    answered = λ token r h. unfold get_result in cc;
  }
  Run-IsInOrder max db (execute run query open_) =
      let h = Run-IsInOrder max db run in
      record {
        served = h.served;
        accepted_eq = h.accepted_eq;
        db_eq = h.db_eq;
        answered = h.answered;
      }
  Run-IsInOrder max db (accept {w} {accepted} run token query before after c room) =
      let h = Run-IsInOrder max db run in
      put-IsInOrder db (record w { callers = before ++ after }) accepted (some (token, query))
        (record {
          served = h.served;
          accepted_eq = h.accepted_eq;
          db_eq = h.db_eq;
          answered = h.answered;
        })
  Run-IsInOrder max db (full run query before after c) =
      let h = Run-IsInOrder max db run in
      record {
        served = h.served;
        accepted_eq = h.accepted_eq;
        db_eq = h.db_eq;
        answered = h.answered;
      }
  Run-IsInOrder max db (turn {w} {accepted} run running) =
      round-IsInOrder db w accepted (Run-IsInOrder max db run)
  Run-IsInOrder max db (query_results {w} {accepted} run token r found) =
      let h = Run-IsInOrder max db run in
      record {
        served = h.served;
        accepted_eq = h.accepted_eq;
        db_eq = h.db_eq;
        answered = λ u s e. h.answered u s (del_result-kept token u w.results s e);
      }
  Run-IsInOrder max db (close {w} {accepted} run room) =
      let h = Run-IsInOrder max db run in
      subst (IsInOrder db _) (append-nil accepted) (
        put-IsInOrder db (record w { exit_set = true }) accepted none
          (record {
            served = h.served;
            accepted_eq = h.accepted_eq;
            db_eq = h.db_eq;
            answered = h.answered;
          }))
  Run-IsInOrder max db (close_full run) =
      let h = Run-IsInOrder max db run in
      record {
        served = h.served;
        accepted_eq = h.accepted_eq;
        db_eq = h.db_eq;
        answered = h.answered;
      }

  -- However the threads interleave, the worker does what running every accepted query at once does:
  -- its database is that of the queries accepted so far, up to those still in the queue, and the
  -- result under a token is the outcome of a query accepted under it, on the database as exactly the
  -- queries accepted before it have left it.
  pub Run-refines :
      (max_queue_size : ℕ) (db : Db) (w : Worker Db Values Rows)
      (accepted : List (ℕ × Query Values))
      → Run max_queue_size db w accepted
      → (final_db w.db (pending w.sql_queue) ≡ final_db db accepted)
        × ((token : ℕ) (r : Outcome Rows)
            → get_result token w.results ≡ some r
            → Answered db accepted token r)
  Run-refines max db w accepted run =
      let h = Run-IsInOrder max db run in
      (
        ap (λ d. final_db d (pending w.sql_queue)) h.db_eq
            ∙ sym (final_db-append db h.served (pending w.sql_queue))
            ∙ ap (final_db db) (sym h.accepted_eq),
        λ token r e.
            subst (λ l. Answered db l token r) (sym h.accepted_eq)
              (Answered-append db h.served (pending w.sql_queue) token r (h.answered token r e)),
      )
