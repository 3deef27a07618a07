-- ===== src/Worker/Drained.antt =====
-- The worker gets through its queue, and every select in it is answered.
use qsp_protocol_node.Prelude.{
  ℕ, zero, suc, ◌≡◌, refl, true, Option, none, some, List, [], ◌∷◌, ◌++◌, arith, length, ◌==◌, sym,
  ◌∙◌, ap, subst, Bool-cases, not, inl, inr, false, ◌&&◌, if◌then◌else◌,
}
use qsp_protocol_node.Worker.{
  Outcome, Query, Apsw, Worker, get_result, is_select, outcome, put_result, run_query, run_entry,
  exit_if_done, is_empty, round,
}

module _ {Db Values Rows : Type 0} (apsw : Apsw Db Values Rows) where
  abbrev pub rounds : ℕ → Worker Db Values Rows → Worker Db Values Rows
  rounds zero w = w
  rounds (suc n) w = rounds n (round apsw w)

  -- The thread that waits for this token finds it.
  abbrev pub HasResult : ℕ → Worker Db Values Rows → Type 0
  HasResult token w = (r : Outcome Rows) × (get_result token w.results ≡ some r)

  exit_if_done-queue :
      (w : Worker Db Values Rows)
      → ((exit_if_done apsw w).sql_queue ≡ w.sql_queue)
        × ((exit_if_done apsw w).results ≡ w.results)
        × ((exit_if_done apsw w).exit_set ≡ w.exit_set)
        × ((exit_if_done apsw w).thread_running
            ≡ (if w.exit_set && is_empty apsw w.sql_queue then false else w.thread_running))
  unfolding exit_if_done
  exit_if_done-queue w = elim (Bool-cases (w.exit_set && is_empty apsw w.sql_queue)) [
    | inl e ↦ rw e (refl, refl, refl, refl)
    | inr e ↦ rw e (refl, refl, refl, refl)
  ]

  run_entry-queue :
      (entry : Option (ℕ × Query Values)) (w : Worker Db Values Rows)
      → ((run_entry apsw entry w).sql_queue ≡ w.sql_queue)
        × ((run_entry apsw entry w).exit_set ≡ w.exit_set)
        × ((run_entry apsw entry w).thread_running ≡ w.thread_running)
  unfolding run_entry run_query
  run_entry-queue none w = (refl, refl, refl)
  run_entry-queue (some (token, query)) w = (refl, refl, refl)

  put_result-HasResult :
      (token u : ℕ) (o : Option (Outcome Rows)) (results : List (ℕ × Outcome Rows))
      (r : Outcome Rows)
      → get_result u results ≡ some r
      → (s : Outcome Rows) × (get_result u (put_result apsw token o results) ≡ some s)
  unfolding get_result
  put_result-HasResult token u none results r h = (r, h)
  put_result-HasResult token u (some o) results r h = elim (Bool-cases (token == u)) [
    | inl e ↦ (o, rw e refl)
    | inr e ↦ (r, rw e h)
  ]

  run_entry-HasResult :
      (entry : Option (ℕ × Query Values)) (w : Worker Db Values Rows) (u : ℕ)
      → HasResult u w
      → HasResult u (run_entry apsw entry w)
  unfolding run_entry run_query
  run_entry-HasResult none w u h = h
  run_entry-HasResult (some (token, query)) w u (r, h) =
      put_result-HasResult token u (outcome apsw query w.db) w.results r h

  run_select-HasResult :
      (token : ℕ) (query : Query Values) (w : Worker Db Values Rows)
      → is_select query.text ≡ true
      → HasResult token (run_entry apsw (some (token, query)) w)
  unfolding run_entry run_query outcome get_result
  run_select-HasResult token query w h =
      let same : (token == token) ≡ true = ground arith in
      (apsw.fetchall query w.db, rw h (rw same refl))

  round_running :
      (w : Worker Db Values Rows) (entry : Option (ℕ × Query Values))
      (entries : List (Option (ℕ × Query Values)))
      → w.thread_running ≡ true
      → w.sql_queue ≡ entry ∷ entries
      → round apsw w ≡ exit_if_done apsw (run_entry apsw entry (record w { sql_queue = entries }))
  unfolding round
  round_running w entry entries running q = simp (running, q) refl

  -- A round of a running worker takes the oldest entry, and ends it only with the last one.
  round_entry :
      (w : Worker Db Values Rows) (entry : Option (ℕ × Query Values))
      (entries : List (Option (ℕ × Query Values)))
      → w.thread_running ≡ true
      → w.sql_queue ≡ entry ∷ entries
      → ((round apsw w).sql_queue ≡ entries)
        × ((round apsw w).results
            ≡ (run_entry apsw entry (record w { sql_queue = entries })).results)
        × ((round apsw w).exit_set ≡ w.exit_set)
        × ((round apsw w).thread_running
            ≡ (if w.exit_set && is_empty apsw entries then false else true))
  round_entry w entry entries running q =
      let v = run_entry apsw entry (record w { sql_queue = entries }) in
      let e = round_running w entry entries running q in
      let (kept, same, exit, ends) = exit_if_done-queue v in
      let (kept', exit', running') = run_entry-queue entry (record w { sql_queue = entries }) in
      (
        ap (λ (u : Worker Db Values Rows). u.sql_queue) e ∙ kept ∙ kept',
        ap (λ (u : Worker Db Values Rows). u.results) e ∙ same,
        ap (λ (u : Worker Db Values Rows). u.exit_set) e ∙ exit ∙ exit',
        ap (λ (u : Worker Db Values Rows). u.thread_running) e
            ∙ ends
            ∙ ap (λ b. if b && is_empty apsw v.sql_queue then false else v.thread_running) exit'
            ∙ ap (λ l. if w.exit_set && is_empty apsw l then false else v.thread_running) kept'
            ∙ ap (λ b. if w.exit_set && is_empty apsw entries then false else b)
                (running' ∙ running),
      )

  HasResult-same :
      (u : ℕ) (v w : Worker Db Values Rows) → v.results ≡ w.results → HasResult u w → HasResult u v
  HasResult-same u v w same (r, h) = (r, ap (get_result u) same ∙ h)

  -- What a worker has after it has run through its queue.
  abbrev Ended : Worker Db Values Rows → Worker Db Values Rows → Type 0
  Ended w v = (v.sql_queue ≡ []) × (v.thread_running ≡ not w.exit_set)

  -- A round from which on the queue is empty, or the worker runs.
  still_running :
      (w : Worker Db Values Rows) (entry next : Option (ℕ × Query Values))
      (entries : List (Option (ℕ × Query Values)))
      → w.thread_running ≡ true
      → w.sql_queue ≡ entry ∷ (next ∷ entries)
      → (round apsw w).thread_running ≡ true
  still_running w entry next entries running q =
      let (kept, same, exit, ends) = round_entry w entry (next ∷ entries) running q in
      elim (Bool-cases w.exit_set) [ inl e ↦ ends ∙ rw e refl | inr e ↦ ends ∙ rw e refl ]

  rounds-Ended :
      (entry : Option (ℕ × Query Values)) (entries : List (Option (ℕ × Query Values)))
      (w : Worker Db Values Rows)
      → w.thread_running ≡ true
      → w.sql_queue ≡ entry ∷ entries
      → Ended w (rounds (length (entry ∷ entries)) w)
  rounds-Ended entry [] w running q =
      let (kept, same, exit, ends) = round_entry w entry [] running q in
      elim (Bool-cases w.exit_set) [
        | inl e ↦ (kept, ends ∙ rw e refl)
        | inr e ↦ (kept, ends ∙ rw e refl)
      ]
  rounds-Ended entry (next ∷ entries) w running q =
      let (kept, same, exit, ends) = round_entry w entry (next ∷ entries) running q in
      let (done_, state) =
        rounds-Ended next entries (round apsw w) (still_running w entry next entries running q)
          kept in
      (done_, state ∙ ap not exit)

  HasResult-rounds :
      (u : ℕ) (queue : List (Option (ℕ × Query Values))) (w : Worker Db Values Rows)
      → w.thread_running ≡ true
      → w.sql_queue ≡ queue
      → HasResult u w
      → HasResult u (rounds (length queue) w)
  HasResult-rounds u [] w running q h = h
  HasResult-rounds u (entry ∷ []) w running q h =
      HasResult-same u (round apsw w) (run_entry apsw entry (record w { sql_queue = [] }))
        (round_entry w entry [] running q).1
        (run_entry-HasResult entry (record w { sql_queue = [] }) u h)
  HasResult-rounds u (entry ∷ (next ∷ entries)) w running q h =
      let (kept, same, exit, ends) = round_entry w entry (next ∷ entries) running q in
      HasResult-rounds u (next ∷ entries) (round apsw w)
        (still_running w entry next entries running q) kept
        (HasResult-same u (round apsw w)
          (run_entry apsw entry (record w { sql_queue = next ∷ entries })) same
          (run_entry-HasResult entry (record w { sql_queue = next ∷ entries }) u h))

  round_select :
      (token : ℕ) (query : Query Values) (after : List (Option (ℕ × Query Values)))
      (w : Worker Db Values Rows)
      → w.thread_running ≡ true
      → w.sql_queue ≡ some (token, query) ∷ after
      → is_select query.text ≡ true
      → HasResult token (round apsw w)
  round_select token query after w running q h =
      HasResult-same token (round apsw w)
        (run_entry apsw (some (token, query)) (record w { sql_queue = after }))
        (round_entry w (some (token, query)) after running q).1
        (run_select-HasResult token query (record w { sql_queue = after }) h)

  rounds-HasResult :
      (token : ℕ) (query : Query Values) (before after : List (Option (ℕ × Query Values)))
      (w : Worker Db Values Rows)
      → w.thread_running ≡ true
      → w.sql_queue ≡ before ++ (some (token, query) ∷ after)
      → is_select query.text ≡ true
      → HasResult token (rounds (length (before ++ (some (token, query) ∷ after))) w)
  rounds-HasResult token query [] [] w running q h = round_select token query [] w running q h
  rounds-HasResult token query [] (next ∷ after) w running q h =
      HasResult-rounds token (next ∷ after) (round apsw w)
        (still_running w (some (token, query)) next after running q)
        (round_entry w (some (token, query)) (next ∷ after) running q).0
        (round_select token query (next ∷ after) w running q h)
  rounds-HasResult token query (entry ∷ []) after w running q h =
      rounds-HasResult token query [] after (round apsw w)
        (still_running w entry (some (token, query)) after running q)
        (round_entry w entry (some (token, query) ∷ after) running q).0 h
  rounds-HasResult token query (entry ∷ (next ∷ before)) after w running q h =
      rounds-HasResult token query (next ∷ before) after (round apsw w)
        (still_running w entry next (before ++ (some (token, query) ∷ after)) running q)
        (round_entry w entry (next ∷ (before ++ (some (token, query) ∷ after))) running q).0 h

  Ended-queue :
      (queue : List (Option (ℕ × Query Values))) (w : Worker Db Values Rows)
      (entry : Option (ℕ × Query Values)) (before after : List (Option (ℕ × Query Values)))
      → w.thread_running ≡ true
      → w.sql_queue ≡ queue
      → queue ≡ before ++ (entry ∷ after)
      → Ended w (rounds (length queue) w)
  Ended-queue [] w entry [] after running q e = absurd cc
  Ended-queue [] w entry (b ∷ before) after running q e = absurd cc
  Ended-queue (first ∷ queue) w entry before after running q e =
      rounds-Ended first queue w running q

  -- A running worker with a select somewhere in its queue, which runs as many rounds as the queue is
  -- long, has emptied the queue, and the thread that waits for the result of the select finds one. The
  -- worker has ended then if it had been told to exit, and runs on if not.
  pub rounds-served :
      (w : Worker Db Values Rows) (token : ℕ) (query : Query Values)
      (before after : List (Option (ℕ × Query Values)))
      → w.thread_running ≡ true
      → w.sql_queue ≡ before ++ (some (token, query) ∷ after)
      → is_select query.text ≡ true
      → ((rounds (length w.sql_queue) w).sql_queue ≡ [])
        × ((rounds (length w.sql_queue) w).thread_running ≡ not w.exit_set)
        × HasResult token (rounds (length w.sql_queue) w)
  rounds-served w token query before after running q h =
      let (emptied, state) =
        Ended-queue w.sql_queue w (some (token, query)) before after running refl q in
      (
        emptied,
        state,
        subst (λ (l : List (Option (ℕ × Query Values))). HasResult token (rounds (length l) w))
            (sym q) (rounds-HasResult token query before after w running q h),
      )
