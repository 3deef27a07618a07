-- ===== src/Audit/Performed/Submitted.antt =====
-- From the audit of a contract to the transaction that submits its report.
use qsp_protocol_node.Prelude.{
  ℕ, ◌≡◌, refl, true, false, Option, some, arith, ◌==◌, ok, ◌>>=◌, ap, ◌∙◌, List, ◌∷◌, ◌++◌,
}
use qsp_protocol_node.Evt.{Evt, assigned, to_be_submitted, is_audit}
use qsp_protocol_node.Evt.Codec.{Row, encode, decode, decode-encode}
use qsp_protocol_node.Pool.Rows.{find, is_active, is_to_be_submitted}
use qsp_protocol_node.Pool.Rows.Laws.{find-update, select-of_find}
use qsp_protocol_node.Pool.Manager.{
  Pool, set_evt_status_to_be_submitted, to_be_submitted_columns, get_events_to_be_submitted,
}
use qsp_protocol_node.Report.Types.{VulnerabilityTypes}
use qsp_protocol_node.Report.Header.Versions.{Version, parse_version}
use qsp_protocol_node.Report.Vulnerabilities.RoundTrip.{AreTypes}
use qsp_protocol_node.Report.Compress.{decode_report}
use qsp_protocol_node.Threads.Chain.{submit_report}
use qsp_protocol_node.Threads.Perform
use qsp_protocol_node.Threads.Perform.{AuditResult, process_audit_request, with_report}
use qsp_protocol_node.Threads.Submit
use qsp_protocol_node.Threads.Submit.{report_transaction}
use qsp_protocol_node.Audit.Performed.{FullReport, Request, World, get_full_report, audit}
use qsp_protocol_node.Audit.Performed.Consistent.{decoded, audit-decoded}
use qsp_protocol_node.Node.Completes.{performed_evt}

-- The request of an event.
abbrev pub request_of : Evt → Request
request_of evt = record {
  requestor = evt.requestor;
  uri = evt.contract_uri;
  request_id = evt.request_id;
}

abbrev pub some_result : AuditResult → Option AuditResult
some_result result = some result

-- What the performing thread is told: the result of `audit`, and the block.
abbrev pub answers_of : VulnerabilityTypes → World → Evt → ℕ → Perform.Answers
answers_of types world evt block = record {
  audit = (do result ← audit types world (request_of evt); ok (some_result result));
  block_number = ok block;
}

performed_pool :
    (types : VulnerabilityTypes) (world : World) (evt : Evt) (block : ℕ) (pool : Pool)
    (result : AuditResult)
    → audit types world (request_of evt) ≡ ok result
    → process_audit_request (answers_of types world evt block) evt pool
      ≡ set_evt_status_to_be_submitted (with_report evt result block) pool
unfolding process_audit_request
performed_pool types world evt block pool result h = rw h refl

performed_row :
    (evt : Evt) (block : ℕ) (pool : Pool) (result : AuditResult)
    → pool.closed ≡ false
    → evt.fk_status ≡ assigned
    → find evt.request_id pool.rows ≡ some (encode evt)
    → find evt.request_id (set_evt_status_to_be_submitted (with_report evt result block) pool).rows
      ≡ some (encode (performed_evt evt result block))
unfolding set_evt_status_to_be_submitted encode
performed_row evt block pool result open_ s f =
    let e =
      find-update evt.request_id is_active
        (to_be_submitted_columns (encode (with_report evt result block))) (λ row. refl)
        evt.request_id pool.rows in
    let i : (evt.request_id == evt.request_id) ≡ true = ground arith in
    rw open_ (e ∙ rw i (rw f (rw s refl)))

performed_among :
    (evt : Evt) (block : ℕ) (pool : Pool) (result : AuditResult)
    → pool.closed ≡ false
    → evt.fk_status ≡ assigned
    → find evt.request_id pool.rows ≡ some (encode evt)
    → (before after : List Row) × (get_events_to_be_submitted
          (set_evt_status_to_be_submitted (with_report evt result block) pool)
        ≡ before ++ (encode (performed_evt evt result block) ∷ after))
unfolding get_events_to_be_submitted
performed_among evt block pool result open_ s f =
    let next = set_evt_status_to_be_submitted (with_report evt result block) pool in
    let (before, after, e) =
      select-of_find is_to_be_submitted evt.request_id next.rows
        (encode (performed_evt evt result block)) (performed_row evt block pool result open_ s f)
        (unfold encode in refl) in
    let still_open : next.closed ≡ false = unfold set_evt_status_to_be_submitted in rw open_ refl in
    (before, after, rw still_open e)

audit_transaction :
    (answers : Submit.Answers) (evt : Evt) (result : AuditResult) (block : ℕ)
    → is_audit evt ≡ true
    → report_transaction answers (performed_evt evt result block)
      ≡ ok (submit_report evt.request_id (some result.audit_state) (some result.compressed_report))
unfolding report_transaction is_audit
audit_transaction answers evt result block h = rw h refl

-- An assigned audit that an open table holds, and whose report is made, is handed over in the table:
-- its row is then TS, and among those over which the submitting thread loops; the event that this
-- thread decodes from it has the transaction of that very report, whose compressed form is decoded to
-- the audit state that the transaction names and to the hash and vulnerabilities of the report. The
-- types of vulnerabilities fit together, and the version of the node is three numbers.
pub performed-submitted :
    (types : VulnerabilityTypes) (world : World) (evt : Evt) (block : ℕ) (pool : Pool)
    (result : AuditResult) (v : Version)
    → (answers : Submit.Answers) → AreTypes types
    → parse_version world.node_version ≡ ok v
    → pool.closed ≡ false
    → evt.fk_status ≡ assigned
    → is_audit evt ≡ true
    → find evt.request_id pool.rows ≡ some (encode evt)
    → audit types world (request_of evt) ≡ ok result
    → (row : Row) × (evt' : Evt) × (full_report : FullReport) × (before after : List Row)
      × (row.request_id ≡ evt.request_id)
      × (row.fk_status ≡ to_be_submitted)
      × (get_events_to_be_submitted
            (process_audit_request (answers_of types world evt block) evt pool)
          ≡ before ++ (row ∷ after))
      × (decode row ≡ some evt')
      × (get_full_report world (request_of evt) ≡ ok full_report)
      × (report_transaction answers evt'
          ≡ ok (
              submit_report evt.request_id
                (some full_report.report.audit_state)
                (some result.compressed_report)))
      × (decode_report types result.compressed_report ≡ ok (decoded v full_report.report))
unfolding encode
performed-submitted types world evt block pool result v answers valid version open_ s kind f h =
    let (full_report, validated, g, accepted, back, state, printed, hashed, url) =
      audit-decoded types world (request_of evt) result v valid version h in
    let (before, after, among) = performed_among evt block pool result open_ s f in
    (
      encode (performed_evt evt result block),
      performed_evt evt result block,
      full_report,
      before,
      after,
      refl,
      refl,
      ap get_events_to_be_submitted (performed_pool types world evt block pool result h) ∙ among,
      decode-encode (performed_evt evt result block),
      g,
      audit_transaction answers evt result block kind
          ∙ ap
              (λ (n : ℕ).
                ok (submit_report evt.request_id (some n) (some result.compressed_report)))
              state,
      back,
    )
