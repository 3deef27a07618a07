-- ===== src/Node/Completes.antt =====
-- A request can always be brought to its end: a run of the node from its assignment to DN.
use qsp_protocol_node.Prelude.{
  ℕ, ◌+◌, ◌≤◌, ◌≡◌, ◌≢◌, refl, String, true, false, some, [], ◌∷◌, arith, ap, ◌∙◌, ◌==◌, ltb,
  Bool-cases, inl, inr, ok, raise, timeout,
}
use qsp_protocol_node.Evt.{
  Evt, assigned, to_be_submitted, submitted, done, is_audit, report_submitted, report_confirmed,
}
use qsp_protocol_node.Evt.Codec.{Row, encode, decode-encode}
use qsp_protocol_node.Pool.Rows.{find, select, update, insert}
use qsp_protocol_node.Pool.Manager.{
  Pool, get_events_to_be_processed, get_events_to_be_submitted, get_events_to_be_monitored,
  set_evt_status_to_be_submitted, set_evt_status_to_submitted, set_evt_status_to_done,
  add_evt_to_be_assigned, is_request_processed,
}
use qsp_protocol_node.Threads.Chain.{Config}
use qsp_protocol_node.Threads.Poll
use qsp_protocol_node.Threads.Poll.{Assignment, poll_requests, mk_evt}
use qsp_protocol_node.Threads.Perform
use qsp_protocol_node.Threads.Perform.{AuditResult, process_audit_request, with_report}
use qsp_protocol_node.Threads.Submit
use qsp_protocol_node.Threads.Submit.{process_submission_request}
use qsp_protocol_node.Threads.Monitor
use qsp_protocol_node.Threads.Monitor.{monitor_submission_timeout}
use qsp_protocol_node.Node.{
  Node, rows_of, new_node, with_pool, poll, select_performing, select_submitting, select_monitoring,
  perform, submit, monitor, Reach, here, next,
}

-- The table holds one event, as its codec writes it, and no thread holds any.
pub record Alone (n : Node) (evt : Evt) : Type 0 where
  pub pool_eq : n.polling.pool ≡ record { rows = encode evt ∷ []; closed = false }
  pub performing_eq : n.performing ≡ []
  pub submitting_eq : n.submitting ≡ []
  pub monitoring_eq : n.monitoring ≡ []

same_id : (id : ℕ) → (id == id) ≡ true
same_id id = ground arith

abbrev alone : Evt → Pool
alone evt = record { rows = encode evt ∷ []; closed = false }

abbrev pub performed_evt : Evt → AuditResult → ℕ → Evt
performed_evt evt result block = record (with_report evt result block) {
  fk_status = to_be_submitted;
  submission_attempts = evt.submission_attempts + 1;
}

abbrev submitted_evt : Evt → String → Evt
submitted_evt evt hash = record evt {
  fk_status = submitted;
  tx_hash = some hash;
  status_info = report_submitted;
}

abbrev done_evt : Evt → Evt
done_evt evt = record evt { fk_status = done; is_persisted = true; status_info = report_confirmed }

audited : AuditResult → ℕ → Perform.Answers
audited result block = record { audit = ok (some result); block_number = ok block }

perform_alone :
    (evt : Evt) (result : AuditResult) (block : ℕ)
    → evt.fk_status ≡ assigned
    → process_audit_request (audited result block) evt (alone evt)
      ≡ alone (performed_evt evt result block)
unfolding process_audit_request set_evt_status_to_be_submitted update encode audited
perform_alone evt result block s = rw (same_id evt.request_id) (rw s refl)

accepts : String → Submit.Answers
accepts hash = record { check_report = λ evt. ok true; send = λ transaction. ok hash }

submit_alone :
    (evt : Evt) (hash : String)
    → evt.fk_status ≡ to_be_submitted
    → is_audit evt ≡ true
    → process_submission_request (accepts hash) evt (alone evt) ≡ alone (submitted_evt evt hash)
unfolding process_submission_request set_evt_status_to_submitted update encode accepts
submit_alone evt hash s audit = rw audit (rw (same_id evt.request_id) (rw s refl))

confirms : ℕ → Monitor.Answers
confirms block = record { is_finished = ok true; block_number = ok block }

monitor_alone :
    (config : Config) (evt : Evt) (block at limit : ℕ)
    → evt.fk_status ≡ submitted
    → evt.submission_block_nbr ≡ some at
    → at + config.n_blocks_confirmation ≤ block
    → monitor_submission_timeout config (confirms block) limit evt (alone evt)
      ≡ alone (done_evt evt)
unfolding monitor_submission_timeout set_evt_status_to_done update encode confirms
monitor_alone config evt block at limit s b late =
    let e : ltb block (at + config.n_blocks_confirmation) ≡ false = ground arith in
    rw b (rw e (rw (same_id evt.request_id) (rw s refl)))

selects_assigned :
    (evt : Evt)
    → evt.fk_status ≡ assigned
    → get_events_to_be_processed (alone evt) ≡ encode evt ∷ []
unfolding get_events_to_be_processed select encode
selects_assigned evt s = rw s refl

selects_to_be_submitted :
    (evt : Evt)
    → evt.fk_status ≡ to_be_submitted
    → get_events_to_be_submitted (alone evt) ≡ encode evt ∷ []
unfolding get_events_to_be_submitted select encode
selects_to_be_submitted evt s = rw s refl

selects_submitted :
    (evt : Evt)
    → evt.fk_status ≡ submitted
    → get_events_to_be_monitored (alone evt) ≡ encode evt ∷ []
unfolding get_events_to_be_monitored select encode
selects_submitted evt s = rw s refl

-- One thread reads the event and handles it.
module _ (config : Config) {n : Node} {evt : Evt} (a : Alone n evt) where
  performs :
      (result : AuditResult) (block : ℕ)
      → evt.fk_status ≡ assigned
      → (m : Node) × Reach config n m × Alone m (performed_evt evt result block)
  performs result block s =
      let read = ap get_events_to_be_processed a.pool_eq ∙ selects_assigned evt s in
      let chosen = record n { performing = get_events_to_be_processed n.polling.pool } in
      (
        record chosen {
          polling =
              with_pool chosen
                (process_audit_request (audited result block) evt chosen.polling.pool);
          performing = [];
        },
        next (next here (select_performing a.performing_eq))
            (perform (encode evt) [] evt (audited result block) read (decode-encode evt)),
        record {
          pool_eq =
              ap (process_audit_request (audited result block) evt) a.pool_eq
              ∙ perform_alone evt result block s;
          performing_eq = refl;
          submitting_eq = a.submitting_eq;
          monitoring_eq = a.monitoring_eq;
        },
      )

  submits :
      (hash : String)
      → evt.fk_status ≡ to_be_submitted
      → is_audit evt ≡ true
      → (m : Node) × Reach config n m × Alone m (submitted_evt evt hash)
  submits hash s audit =
      let read = ap get_events_to_be_submitted a.pool_eq ∙ selects_to_be_submitted evt s in
      let chosen = record n { submitting = get_events_to_be_submitted n.polling.pool } in
      (
        record chosen {
          polling =
              with_pool chosen (process_submission_request (accepts hash) evt chosen.polling.pool);
          submitting = [];
        },
        next (next here (select_submitting a.submitting_eq))
            (submit (encode evt) [] evt (accepts hash) read (decode-encode evt)),
        record {
          pool_eq =
              ap (process_submission_request (accepts hash) evt) a.pool_eq
              ∙ submit_alone evt hash s audit;
          performing_eq = a.performing_eq;
          submitting_eq = refl;
          monitoring_eq = a.monitoring_eq;
        },
      )

  monitors :
      (block at limit : ℕ)
      → evt.fk_status ≡ submitted
      → evt.submission_block_nbr ≡ some at
      → at + config.n_blocks_confirmation ≤ block
      → (m : Node) × Reach config n m × Alone m (done_evt evt)
  monitors block at limit s b late =
      let read = ap get_events_to_be_monitored a.pool_eq ∙ selects_submitted evt s in
      let chosen = record n { monitoring = get_events_to_be_monitored n.polling.pool } in
      (
        record chosen {
          polling =
              with_pool chosen
                (monitor_submission_timeout config (confirms block) limit evt chosen.polling.pool);
          monitoring = [];
        },
        next (next here (select_monitoring a.monitoring_eq))
            (monitor (encode evt) [] evt (confirms block) limit read (decode-encode evt)),
        record {
          pool_eq =
              ap (monitor_submission_timeout config (confirms block) limit evt) a.pool_eq
              ∙ monitor_alone config evt block at limit s b late;
          performing_eq = a.performing_eq;
          submitting_eq = a.submitting_eq;
          monitoring_eq = refl;
        },
      )

Reach-trans :
    {config : Config} {n m k : Node} → Reach config n m → Reach config m k → Reach config n k
Reach-trans r here = r
Reach-trans r (next s t) = next (Reach-trans r s) t

-- The contract's answers in a round that finds the assignment, and nothing else.
assigns : Assignment → Poll.Answers
assigns audit = record {
  is_police_node = ok false;
  most_recent_assigned_audit = ok audit;
  any_request_available = raise timeout;
  assigned_request_count = raise timeout;
  next_police_assignment = raise timeout;
}

abbrev assigned_evt : Assignment → Evt
assigned_evt audit =
    mk_evt audit.request_id audit.requestor audit.uri audit.price audit.block_number true

polls :
    (config : Config) (audit : Assignment) (block : ℕ)
    → audit.request_id ≢ 0
    → audit.block_number + config.n_blocks_confirmation ≤ block
    → (n : Node) × Reach config new_node n × Alone n (assigned_evt audit)
unfolding poll_requests is_request_processed find add_evt_to_be_assigned insert encode assigns
    mk_evt
polls config audit block some_id confirmed =
    let e : ltb block (audit.block_number + config.n_blocks_confirmation) ≡ false = ground arith in
    let i : (audit.request_id == 0) ≡ false = ground arith in
    (
      record new_node { polling = poll_requests config (assigns audit) block new_node.polling },
      next here (poll (assigns audit) block),
      record {
        pool_eq =
            rw (e, i)
              (elim (Bool-cases (audit.block_number == 0)) [
                | inl z ↦ rw z refl
                | inr z ↦ rw z refl
              ]);
        performing_eq = refl;
        submitting_eq = refl;
        monitoring_eq = refl;
      },
    )

-- A request can be brought to its end: whatever the configuration, the assignment, its report and the
-- hash of its transaction, there is a run of a new node, for a contract that assigns the request,
-- takes its report and finishes it, in which the request ends in DN, with that report and hash, after
-- one submission attempt.
pub Reach-done :
    (config : Config) (audit : Assignment) (result : AuditResult) (hash : String)
    (block audited_at last limit : ℕ)
    → audit.request_id ≢ 0
    → audit.block_number + config.n_blocks_confirmation ≤ block
    → audited_at + config.n_blocks_confirmation ≤ last
    → (n : Node) × (row : Row) × Reach config new_node n
      × (find audit.request_id (rows_of n) ≡ some row)
      × (row.fk_status ≡ done)
      × (row.submission_attempts ≡ 1)
      × (row.tx_hash ≡ some hash)
      × (row.audit_state ≡ some result.audit_state)
      × (row.compressed_report ≡ some result.compressed_report)
unfolding find encode mk_evt is_audit
Reach-done config audit result hash block audited_at last limit some_id confirmed late =
    let (n₁, r₁, a₁) = polls config audit block some_id confirmed in
    let (n₂, r₂, a₂) = performs config a₁ result audited_at refl in
    let (n₃, r₃, a₃) = submits config a₂ hash refl refl in
    let (n₄, r₄, a₄) = monitors config a₃ last audited_at limit refl refl late in
    (
      n₄,
      encode (done_evt (submitted_evt (performed_evt (assigned_evt audit) result audited_at) hash)),
      Reach-trans (Reach-trans (Reach-trans r₁ r₂) r₃) r₄,
      ap (λ (p : Pool). find audit.request_id p.rows) a₄.pool_eq
          ∙ rw (same_id audit.request_id) refl,
      refl,
      refl,
      refl,
      refl,
      refl,
    )
