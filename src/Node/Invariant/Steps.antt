-- ===== src/Node/Invariant/Steps.antt =====
-- Every step of the node keeps its invariant.
use qsp_protocol_node.Prelude.{
  ℕ, ◌+◌, ◌≤◌, ◌≡◌, Bool, true, false, some, List, [], ◌∷◌, arith, ap, ◌∙◌, subst, ok,
  if◌then◌else◌, >>=-eq-ok, ok-injective,
}
use qsp_protocol_node.Evt.{Evt, Status, assigned, submitted}
use qsp_protocol_node.Evt.Codec.{Row, decode, decode_keeps}
use qsp_protocol_node.Pool.Rows.{find, is_assigned, is_to_be_submitted, is_submitted, select}
use qsp_protocol_node.Pool.Rows.Unique.{UniqueIds}
use qsp_protocol_node.Pool.Manager.{
  Pool, decode_row, process_evts, get_events_to_be_processed, get_events_to_be_submitted,
  get_events_to_be_monitored, close,
}
use qsp_protocol_node.Threads.Chain.{Config}
use qsp_protocol_node.Threads.Monitor.{max_submission_attempts}
use qsp_protocol_node.Threads.Restart.{timeout_event, timeout_stale_requests}
use qsp_protocol_node.Threads.Poll
use qsp_protocol_node.Threads.Poll.{poll_requests, poll_audit_request}
use qsp_protocol_node.Node.{
  Node, rows_of, new_node, Step, poll, select_performing, select_submitting, select_monitoring,
  perform, submit, monitor, stop, restart, Reach, here, next,
}
use qsp_protocol_node.Node.Writes.Handlers.{
  perform-Write, process_submission_request-Write, monitor_submission_timeout-Write,
  timeout_event-Write,
}
use qsp_protocol_node.Node.Owned.{Owned, Held, Owned-rest, Owned-other, select-Owned}
use qsp_protocol_node.Node.Invariant.{
  Inv, IsConsistent, Write-IsConsistent, Added-IsConsistent, Added-Owned, decode-submission_block,
}
use qsp_protocol_node.Node.Invariant.Polls.{poll_audit_request-Added, poll_police_request-Added}

-- What is known of an event that a thread takes from the rows that it owns.
pub record Taken (test : Status → Bool) (rows : List Row) (row : Row) (evt : Evt) : Type 0 where
  pub id : evt.request_id ≡ row.request_id
  pub attempts : evt.submission_attempts ≡ row.submission_attempts
  pub found : find evt.request_id rows ≡ some row
  pub held : Held test rows row

pub take_lem :
    (test : Status → Bool) (rows : List Row) (row : Row) (rest : List Row) (evt : Evt)
    → Owned test rows (row ∷ rest)
    → decode row ≡ some evt
    → Taken test rows row evt
take_lem test rows row rest evt o d =
    let (same, _, _, attempts) = decode_keeps row evt d in
    record {
      id = same;
      attempts = attempts;
      found = ap (λ k. find k rows) same ∙ o.0.0.0;
      held = o.0.0;
    }

-- The three states of the threads have no state in common.
abbrev Apart : (Status → Bool) → (Status → Bool) → Type 0
Apart test test' = (s : Status) → test s ≡ true → test' s ≡ true → ⊥

assigned-Apart_to_be_submitted : Apart is_assigned is_to_be_submitted
assigned-Apart_to_be_submitted s h k = ground arith

assigned-Apart_submitted : Apart is_assigned is_submitted
assigned-Apart_submitted s h k = ground arith

to_be_submitted-Apart_assigned : Apart is_to_be_submitted is_assigned
to_be_submitted-Apart_assigned s h k = ground arith

to_be_submitted-Apart_submitted : Apart is_to_be_submitted is_submitted
to_be_submitted-Apart_submitted s h k = ground arith

submitted-Apart_assigned : Apart is_submitted is_assigned
submitted-Apart_assigned s h k = ground arith

submitted-Apart_to_be_submitted : Apart is_submitted is_to_be_submitted
submitted-Apart_to_be_submitted s h k = ground arith

is_assigned_eq : (s : Status) → is_assigned s ≡ true → s ≡ assigned
is_assigned_eq s h = ground arith

is_submitted_eq : (s : Status) → is_submitted s ≡ true → s ≡ submitted
is_submitted_eq s h = ground arith

-- The write of each thread, in a state that satisfies the invariant.
module _ {n : Node} (inv : Inv n) {row : Row} {rest : List Row} {evt : Evt}
    (d : decode row ≡ some evt) where
  pub performing-Taken : n.performing ≡ row ∷ rest → Taken is_assigned (rows_of n) row evt
  performing-Taken h =
      take_lem _ _ row rest evt (subst (Owned is_assigned (rows_of n)) h inv.performing_owned) d

  pub submitting-Taken : n.submitting ≡ row ∷ rest → Taken is_to_be_submitted (rows_of n) row evt
  submitting-Taken h =
      take_lem _ _ row rest evt
        (subst (Owned is_to_be_submitted (rows_of n)) h inv.submitting_owned) d

  pub monitoring-Taken : n.monitoring ≡ row ∷ rest → Taken is_submitted (rows_of n) row evt
  monitoring-Taken h =
      take_lem _ _ row rest evt (subst (Owned is_submitted (rows_of n)) h inv.monitoring_owned) d

  pub performing_unattempted :
      n.performing ≡ row ∷ rest → evt.submission_attempts + 1 ≤ max_submission_attempts
  performing_unattempted h =
      let t = performing-Taken h in
      let s = inv.consistent.sound evt.request_id row t.found in
      omega (arith, t.attempts, s.assigned_unattempted (is_assigned_eq row.fk_status t.held.1))

  pub monitoring_block :
      n.monitoring ≡ row ∷ rest → (block : ℕ) × (evt.submission_block_nbr ≡ some block)
  monitoring_block h =
      let t = monitoring-Taken h in
      let s = inv.consistent.sound evt.request_id row t.found in
      decode-submission_block row evt d (s.submitted_block (is_submitted_eq row.fk_status t.held.1))

-- The loop of a restart over the rows of one select.
pub process_evts-IsConsistent :
    (config : Config) (block : ℕ) (test : Status → Bool) (held : List Row) (pool pool' : Pool)
    → IsConsistent pool.rows
    → Owned test pool.rows held
    → process_evts (timeout_event config block) held pool ≡ ok pool'
    → IsConsistent pool'.rows
unfolding process_evts
process_evts-IsConsistent config block test [] pool pool' c o h =
    subst (λ (p : Pool). IsConsistent p.rows) (ok-injective h) c
process_evts-IsConsistent config block test (row ∷ held) pool pool' c o h =
    let (evt, e, h₁) = >>=-eq-ok (decode_row row) _ h in
    let t = take_lem test pool.rows row held evt o (unfold decode_row in ground arith) in
    let w = timeout_event-Write config block evt pool in
    process_evts-IsConsistent config block test held (timeout_event config block evt pool) pool'
      (Write-IsConsistent row w t.found t.attempts c) (Owned-rest test row held t.id w o) h₁

-- What a thread reads from the database, it owns.
pub read-Owned :
    (test : Status → Bool) (closed : Bool) (rows : List Row)
    → UniqueIds rows
    → Owned test rows (if closed then [] else select test rows)
read-Owned test true rows u = (tt, tt)
read-Owned test false rows u = select-Owned test rows u

poll-Inv :
    (config : Config) (answers : Poll.Answers) (block : ℕ) (n : Node)
    → Inv n
    → Inv (record n { polling = poll_requests config answers block n.polling })
unfolding poll_requests
poll-Inv config answers block n inv =
    let a = poll_audit_request-Added config answers block n.polling in
    let p =
      poll_police_request-Added config answers block
        (poll_audit_request config answers block n.polling) in
    record {
      consistent = Added-IsConsistent p (Added-IsConsistent a inv.consistent);
      performing_owned =
          Added-Owned _ n.performing p (Added-Owned _ n.performing a inv.performing_owned);
      submitting_owned =
          Added-Owned _ n.submitting p (Added-Owned _ n.submitting a inv.submitting_owned);
      monitoring_owned =
          Added-Owned _ n.monitoring p (Added-Owned _ n.monitoring a inv.monitoring_owned);
    }

restart-IsConsistent :
    (config : Config) (block : ℕ) (pool pool' : Pool)
    → IsConsistent pool.rows
    → timeout_stale_requests config block pool ≡ ok pool'
    → IsConsistent pool'.rows
unfolding timeout_stale_requests get_events_to_be_processed get_events_to_be_submitted
restart-IsConsistent config block pool pool' c h =
    let (middle, e, h₁) =
      >>=-eq-ok (process_evts (timeout_event config block) (get_events_to_be_processed pool) pool) _
        h in
    let cm =
      process_evts-IsConsistent config block is_assigned (get_events_to_be_processed pool) pool
        middle c (read-Owned is_assigned pool.closed pool.rows c.unique) e in
    process_evts-IsConsistent config block is_to_be_submitted (get_events_to_be_submitted middle)
      middle pool' cm (read-Owned is_to_be_submitted middle.closed middle.rows cm.unique) h₁

-- Every step of the node, of any thread, with any answers from outside, keeps the invariant.
pub step-Inv : (config : Config) (n n' : Node) → Step config n n' → Inv n → Inv n'
unfolding get_events_to_be_processed get_events_to_be_submitted get_events_to_be_monitored close
step-Inv config n n' (poll answers block) inv = poll-Inv config answers block n inv
step-Inv config n n' (select_performing e) inv = record {
  consistent = inv.consistent;
  performing_owned = read-Owned is_assigned n.polling.pool.closed (rows_of n) inv.consistent.unique;
  submitting_owned = inv.submitting_owned;
  monitoring_owned = inv.monitoring_owned;
}
step-Inv config n n' (select_submitting e) inv = record {
  consistent = inv.consistent;
  performing_owned = inv.performing_owned;
  submitting_owned =
      read-Owned is_to_be_submitted n.polling.pool.closed (rows_of n) inv.consistent.unique;
  monitoring_owned = inv.monitoring_owned;
}
step-Inv config n n' (select_monitoring e) inv = record {
  consistent = inv.consistent;
  performing_owned = inv.performing_owned;
  submitting_owned = inv.submitting_owned;
  monitoring_owned =
      read-Owned is_submitted n.polling.pool.closed (rows_of n) inv.consistent.unique;
}
step-Inv config n n' (perform row rest evt answers h d) inv =
    let t = performing-Taken inv d h in
    let w = perform-Write answers evt n.polling.pool (performing_unattempted inv d h) in
    record {
      consistent = Write-IsConsistent row w t.found t.attempts inv.consistent;
      performing_owned =
          Owned-rest is_assigned row rest t.id w
            (subst (Owned is_assigned (rows_of n)) h inv.performing_owned);
      submitting_owned =
          Owned-other _ is_to_be_submitted row n.submitting t.id w t.held
            assigned-Apart_to_be_submitted inv.submitting_owned;
      monitoring_owned =
          Owned-other _ is_submitted row n.monitoring t.id w t.held assigned-Apart_submitted
            inv.monitoring_owned;
    }
step-Inv config n n' (submit row rest evt answers h d) inv =
    let t = submitting-Taken inv d h in
    let w = process_submission_request-Write answers evt n.polling.pool in
    record {
      consistent = Write-IsConsistent row w t.found t.attempts inv.consistent;
      performing_owned =
          Owned-other _ is_assigned row n.performing t.id w t.held to_be_submitted-Apart_assigned
            inv.performing_owned;
      submitting_owned =
          Owned-rest is_to_be_submitted row rest t.id w
            (subst (Owned is_to_be_submitted (rows_of n)) h inv.submitting_owned);
      monitoring_owned =
          Owned-other _ is_submitted row n.monitoring t.id w t.held to_be_submitted-Apart_submitted
            inv.monitoring_owned;
    }
step-Inv config n n' (monitor row rest evt answers limit h d) inv =
    let t = monitoring-Taken inv d h in
    let w =
      monitor_submission_timeout-Write evt n.polling.pool (monitoring_block inv d h).1 config
        answers limit in
    record {
      consistent = Write-IsConsistent row w t.found t.attempts inv.consistent;
      performing_owned =
          Owned-other _ is_assigned row n.performing t.id w t.held submitted-Apart_assigned
            inv.performing_owned;
      submitting_owned =
          Owned-other _ is_to_be_submitted row n.submitting t.id w t.held
            submitted-Apart_to_be_submitted inv.submitting_owned;
      monitoring_owned =
          Owned-rest is_submitted row rest t.id w
            (subst (Owned is_submitted (rows_of n)) h inv.monitoring_owned);
    }
step-Inv config n n' stop inv = record {
  consistent = inv.consistent;
  performing_owned = inv.performing_owned;
  submitting_owned = inv.submitting_owned;
  monitoring_owned = inv.monitoring_owned;
}
step-Inv config n n' (restart block pool h) inv = record {
  consistent = restart-IsConsistent config block _ pool inv.consistent h;
  performing_owned = (tt, tt);
  submitting_owned = (tt, tt);
  monitoring_owned = (tt, tt);
}

pub new_node-Inv : Inv new_node
new_node-Inv = record {
  consistent = record { unique = tt; sound = λ id row h. unfold find in cc };
  performing_owned = (tt, tt);
  submitting_owned = (tt, tt);
  monitoring_owned = (tt, tt);
}

pub Reach-Inv : (config : Config) {n n' : Node} → Inv n → Reach config n n' → Inv n'
Reach-Inv config inv here = inv
Reach-Inv config inv (next r s) = step-Inv config _ _ s (Reach-Inv config inv r)
