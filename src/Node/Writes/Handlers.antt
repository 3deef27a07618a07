-- ===== src/Node/Writes/Handlers.antt =====
-- Each thread's handler writes at most once, to the row of the event it was given, and moves it
-- only into the states that are the thread's own.
use qsp_protocol_node.Prelude.{
  sym, leb, ap, ℕ, ◌+◌, ◌≤◌, ◌≡◌, refl, Bool, true, false, Option, none, some, arith, if_cases,
  Result, ok, raise, Exn, key_error, deduplication, not_confirmed, >>=-eq-ok, subst, ok-injective,
  ltb,
}
use qsp_protocol_node.Evt.{Evt, Status, to_be_submitted, submitted, done, error}
use qsp_protocol_node.Pool.Manager.{Pool}
use qsp_protocol_node.Threads.Chain.{Config}
use qsp_protocol_node.Threads.Restart
use qsp_protocol_node.Threads.Monitor
use qsp_protocol_node.Threads.Perform
use qsp_protocol_node.Threads.Submit
use qsp_protocol_node.Threads.Monitor.{max_submission_attempts}
use qsp_protocol_node.Node.Writes.{
  Write, nothing, Write-to_be_submitted, Write-submitted, Write-done, Write-error,
}

abbrev pub perform_targets : Status → Bool
perform_targets to_be_submitted = true
perform_targets error = true
perform_targets _ = false

abbrev pub submit_targets : Status → Bool
submit_targets submitted = true
submit_targets error = true
submit_targets _ = false

abbrev pub monitor_targets : Status → Bool
monitor_targets to_be_submitted = true
monitor_targets done = true
monitor_targets error = true
monitor_targets _ = false

abbrev pub restart_targets : Status → Bool
restart_targets error = true
restart_targets _ = false

pub perform-Write :
    (answers : Perform.Answers) (evt : Evt) (pool : Pool)
    → evt.submission_attempts + 1 ≤ max_submission_attempts
    → Write perform_targets evt pool.rows (Perform.process_audit_request answers evt pool).rows
unfolding Perform.process_audit_request
perform-Write answers evt pool le = go answers.audit answers.block_number
  where
    go :
        (audit : Result (Option Perform.AuditResult)) (block : Result ℕ)
        → Write perform_targets evt pool.rows
            (Perform.process_audit_request
              (record { audit = audit; block_number = block })
              evt
              pool).rows
    go (ok (some result)) (ok block) = Write-to_be_submitted _ refl pool block refl le refl
    go (ok (some result)) (raise key_error) = nothing refl
    go (ok (some result)) (raise e) = Write-error _ refl pool refl
    go (ok none) block = Write-error _ refl pool refl
    go (raise key_error) block = nothing refl
    go (raise e) block = Write-error _ refl pool refl

submit_recovered-Write :
    (evt : Evt) (pool : Pool) (r : Result Pool)
    → ((pool' : Pool) → r ≡ ok pool' → Write submit_targets evt pool.rows pool'.rows)
    → Write submit_targets evt pool.rows (Submit.recovered evt pool r).rows
unfolding Submit.recovered
submit_recovered-Write evt pool (ok pool') h = h pool' refl
submit_recovered-Write evt pool (raise deduplication) h = nothing refl
submit_recovered-Write evt pool (raise not_confirmed) h = nothing refl
submit_recovered-Write evt pool (raise key_error) h = nothing refl
submit_recovered-Write evt pool (raise e) h = Write-error _ refl pool refl

submit-Write :
    (answers : Submit.Answers) (evt : Evt) (pool pool' : Pool)
    → Submit.submit answers evt pool ≡ ok pool'
    → Write submit_targets evt pool.rows pool'.rows
unfolding Submit.submit
submit-Write answers evt pool pool' h =
    let (transaction, t, h₁) = >>=-eq-ok (Submit.report_transaction answers evt) _ h in
    let (hash, s, h₂) = >>=-eq-ok (answers.send transaction) _ h₁ in
    subst (λ (p : Pool). Write submit_targets evt pool.rows p.rows) (ok-injective h₂)
      (Write-submitted _ refl pool refl)

pub process_submission_request-Write :
    (answers : Submit.Answers) (evt : Evt) (pool : Pool)
    → Write submit_targets evt pool.rows (Submit.process_submission_request answers evt pool).rows
unfolding Submit.process_submission_request
process_submission_request-Write answers evt pool =
    submit_recovered-Write evt pool (Submit.submit answers evt pool) (submit-Write answers evt pool)

module _ (evt : Evt) (pool : Pool) {block : ℕ}
    (submitted_at : evt.submission_block_nbr ≡ some block) where
  abbrev MonitorWrites : Pool → Type 0
  MonitorWrites pool' = Write monitor_targets evt pool.rows pool'.rows

  attempts_left :
      ltb max_submission_attempts (evt.submission_attempts + 1) ≡ false
      → evt.submission_attempts + 1 ≤ max_submission_attempts
  attempts_left h = ground arith

  recover-Write : (e : Exn) → MonitorWrites (Monitor.recover evt pool e)
  unfolding Monitor.recover
  recover-Write key_error = Write-error _ refl pool refl
  recover-Write e =
      if_cases MonitorWrites (ltb max_submission_attempts (evt.submission_attempts + 1))
        (λ _. Write-error _ refl pool refl)
        (λ h. Write-to_be_submitted _ refl pool block refl (attempts_left h) submitted_at)

  check_window-Write :
      (current limit : ℕ) → MonitorWrites (Monitor.check_window current limit evt pool)
  unfolding Monitor.check_window
  check_window-Write current limit =
      if_cases MonitorWrites (ltb current (evt.assigned_block_nbr + limit))
        (λ _.
          if_cases MonitorWrites (ltb max_submission_attempts (evt.submission_attempts + 1))
            (λ _. Write-error _ refl pool refl)
            (λ h. Write-to_be_submitted _ refl pool block refl (attempts_left h) submitted_at))
        (λ _. Write-error _ refl pool refl)

  check_confirmed-Write :
      (config : Config) (current : ℕ) (pool' : Pool)
      → Monitor.check_confirmed config current evt pool ≡ ok pool'
      → MonitorWrites pool'
  unfolding Monitor.check_confirmed
  check_confirmed-Write config current pool' h =
      let (at, s, h₁) = >>=-eq-ok (Monitor.submission_block evt) _ h in
      if_cases (λ (r : Result Pool). r ≡ ok pool' → MonitorWrites pool')
        (ltb current (at + config.n_blocks_confirmation))
        (λ _ e. nothing (ap (λ (p : Pool). p.rows) (sym (ok-injective e))))
        (λ _ e. subst MonitorWrites (ok-injective e) (Write-done _ refl pool refl)) h₁

  monitor-Write :
      (config : Config) (answers : Monitor.Answers) (limit : ℕ) (pool' : Pool)
      → Monitor.monitor config answers limit evt pool ≡ ok pool'
      → MonitorWrites pool'
  unfolding Monitor.monitor
  monitor-Write config answers limit pool' h =
      let (finished, f, h₁) = >>=-eq-ok answers.is_finished _ h in
      let (current, c, h₂) = >>=-eq-ok answers.block_number _ h₁ in
      if_cases (λ (r : Result Pool). r ≡ ok pool' → MonitorWrites pool') finished
        (λ _. check_confirmed-Write config current pool')
        (λ _ e. subst MonitorWrites (ok-injective e) (check_window-Write current limit)) h₂

  monitor_recovered-Write :
      (r : Result Pool)
      → ((pool' : Pool) → r ≡ ok pool' → MonitorWrites pool')
      → MonitorWrites (Monitor.recovered evt pool r)
  unfolding Monitor.recovered
  monitor_recovered-Write (ok pool') h = h pool' refl
  monitor_recovered-Write (raise e) h = recover-Write e

  pub monitor_submission_timeout-Write :
      (config : Config) (answers : Monitor.Answers) (limit : ℕ)
      → Write monitor_targets evt pool.rows
          (Monitor.monitor_submission_timeout config answers limit evt pool).rows
  unfolding Monitor.monitor_submission_timeout
  monitor_submission_timeout-Write config answers limit =
      monitor_recovered-Write (Monitor.monitor config answers limit evt pool)
        (monitor-Write config answers limit)

pub timeout_event-Write :
    (config : Config) (block : ℕ) (evt : Evt) (pool : Pool)
    → Write restart_targets evt pool.rows (Restart.timeout_event config block evt pool).rows
unfolding Restart.timeout_event
timeout_event-Write config block evt pool =
    if_cases (λ (p : Pool). Write restart_targets evt pool.rows p.rows)
      (leb (evt.assigned_block_nbr + config.submission_timeout_limit_blocks)
        (block + config.block_discard_on_restart))
      (λ _. Write-error _ refl pool refl) (λ _. nothing refl)
