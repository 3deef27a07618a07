-- ===== src/Threads/Monitor/Confirmed.antt =====
-- When the monitoring thread takes a submission as done.
use mathlib.Core.Option.{some-injective}
use qsp_protocol_node.Prelude.{
  ℕ, ◌+◌, ◌≤◌, ◌≡◌, ◌≢◌, refl, Bool, true, some, arith, if◌then◌else◌, ltb, ok, Exn, if_cases,
  subst, key_error, >>=-eq-ok, ok-injective, Bool-cases, Option-cases, Result-cases, inl, inr, ◌⊎◌,
  sym, ◌∙◌, ap,
}
use qsp_protocol_node.Evt.{Evt, done, unexpected}
use qsp_protocol_node.Evt.Codec.{Row, encode}
use qsp_protocol_node.Pool.Rows.{find, is_active, any_status}
use qsp_protocol_node.Pool.Rows.Laws.{find-update}
use qsp_protocol_node.Pool.Manager.{
  Pool, error_columns, to_be_submitted_columns, set_evt_status_to_error,
  set_evt_status_to_be_submitted,
}
use qsp_protocol_node.Threads.Chain.{Config, exn_text}
use qsp_protocol_node.Threads.Monitor.{
  max_submission_attempts, Answers, submission_block, check_confirmed, check_window, monitor,
  recover, recovered, monitor_submission_timeout,
}

-- The event's row is not done.
abbrev NotDone : Evt → Pool → Type 0
NotDone evt pool = (row : Row) → find evt.request_id pool.rows ≡ some row → row.fk_status ≢ done

set_error-NotDone :
    (evt : Evt) (pool : Pool) → NotDone evt pool → NotDone evt (set_evt_status_to_error evt pool)
unfolding set_evt_status_to_error
set_error-NotDone evt pool h row f d =
    let u =
      find-update evt.request_id any_status (error_columns (encode evt)) (λ r. refl) evt.request_id
        pool.rows in
    elim (Option-cases (find evt.request_id pool.rows)) [
      | inl n ↦ ground arith
      | inr (old, o) ↦ let k = h old o in ground arith
    ]

set_to_be_submitted-NotDone :
    (evt : Evt) (pool : Pool)
    → NotDone evt pool
    → NotDone evt (set_evt_status_to_be_submitted evt pool)
unfolding set_evt_status_to_be_submitted
set_to_be_submitted-NotDone evt pool h row f d =
    let u =
      find-update evt.request_id is_active (to_be_submitted_columns (encode evt)) (λ r. refl)
        evt.request_id pool.rows in
    elim (Option-cases (find evt.request_id pool.rows)) [
      | inl n ↦ ground arith
      | inr (old, o) ↦ let k = h old o in ground arith
    ]

check_window-NotDone :
    (current limit : ℕ) (evt : Evt) (pool : Pool)
    → NotDone evt pool
    → NotDone evt (check_window current limit evt pool)
unfolding check_window
check_window-NotDone current limit evt pool h =
    if_cases (NotDone evt) (ltb current (evt.assigned_block_nbr + limit))
      (λ _.
        if_cases (NotDone evt) (ltb max_submission_attempts (evt.submission_attempts + 1))
          (λ _. set_error-NotDone _ pool h) (λ _. set_to_be_submitted-NotDone _ pool h))
      (λ _. set_error-NotDone _ pool h)

retry-NotDone :
    (e : Exn) (evt : Evt) (pool : Pool)
    → NotDone evt pool
    → NotDone evt (
        if ltb max_submission_attempts (evt.submission_attempts + 1)
        then set_evt_status_to_error (record evt { status_info = unexpected (exn_text e) }) pool
        else set_evt_status_to_be_submitted
            (record evt { status_info = unexpected (exn_text e) })
            pool)
retry-NotDone e evt pool h =
    if_cases (NotDone evt) (ltb max_submission_attempts (evt.submission_attempts + 1))
      (λ _. set_error-NotDone _ pool h) (λ _. set_to_be_submitted-NotDone _ pool h)

recover-NotDone :
    (e : Exn) (evt : Evt) (pool : Pool) → NotDone evt pool → NotDone evt (recover evt pool e)
unfolding recover
recover-NotDone key_error evt pool h = set_error-NotDone _ pool h
recover-NotDone e evt pool h = retry-NotDone e evt pool h

-- The report is finished on the chain, and its submission has the confirmations wanted.
abbrev pub Final : Config → Answers → Evt → Type 0
Final config answers evt =
    (answers.is_finished ≡ ok true)
    × ((block submitted_at : ℕ) × (answers.block_number ≡ ok block)
        × (evt.submission_block_nbr ≡ some submitted_at)
        × (submitted_at + config.n_blocks_confirmation ≤ block))

check_confirmed-Final :
    (config : Config) (answers : Answers) (block : ℕ) (evt : Evt) (pool pool' : Pool)
    → answers.is_finished ≡ ok true
    → answers.block_number ≡ ok block
    → NotDone evt pool
    → check_confirmed config block evt pool ≡ ok pool'
    → NotDone evt pool' ⊎ Final config answers evt
unfolding check_confirmed submission_block
check_confirmed-Final config answers block evt pool pool' finished asked h r =
    elim (Option-cases evt.submission_block_nbr) [
      | inl n ↦ absurd (ground arith)
      | inr (at, n) ↦ elim (Bool-cases (ltb block (at + config.n_blocks_confirmation))) [
        | inl early ↦ let same : pool ≡ pool' = ground arith in inl (subst (NotDone evt) same h)
        | inr late ↦ inr (finished, (block, at, asked, n, ground arith))
      ]
    ]

monitor-Final :
    (config : Config) (answers : Answers) (limit : ℕ) (evt : Evt) (pool pool' : Pool)
    → NotDone evt pool
    → monitor config answers limit evt pool ≡ ok pool'
    → NotDone evt pool' ⊎ Final config answers evt
unfolding monitor
monitor-Final config answers limit evt pool pool' h r =
    let (finished, f, r₁) = >>=-eq-ok answers.is_finished _ r in
    let (block, b, r₂) = >>=-eq-ok answers.block_number _ r₁ in
    elim (Bool-cases finished) [
      | inl e ↦
          check_confirmed-Final config answers block evt pool pool' (f ∙ ap (λ (x : Bool). ok x) e)
            b h (rw e at r₂)
      | inr e ↦ inl (
          subst (NotDone evt) (ok-injective (rw e at r₂))
            (check_window-NotDone block limit evt pool h))
    ]

-- The monitoring thread takes an event that is not done as done only if the contract says that its
-- audit is finished and its submission has the confirmations wanted; no exception and no retry does.
pub monitor_submission_timeout-Final :
    (config : Config) (answers : Answers) (limit : ℕ) (evt : Evt) (pool : Pool) (row row' : Row)
    → find evt.request_id pool.rows ≡ some row
    → row.fk_status ≢ done
    → find evt.request_id (monitor_submission_timeout config answers limit evt pool).rows
      ≡ some row'
    → row'.fk_status ≡ done
    → Final config answers evt
unfolding monitor_submission_timeout recovered
monitor_submission_timeout-Final config answers limit evt pool row row' f h f' d =
    let before : NotDone evt pool =
      λ old o. subst (λ (r : Row). r.fk_status ≢ done) (some-injective row old (sym f ∙ o)) h in
    elim (Result-cases (monitor config answers limit evt pool)) [
      | inr (e, m) ↦ absurd (recover-NotDone e evt pool before row' (rw m at f') d)
      | inl (pool', m) ↦ elim (monitor-Final config answers limit evt pool pool' before m) [
        | inl none_done ↦ absurd (none_done row' (rw m at f') d)
        | inr final ↦ final
      ]
    ]
