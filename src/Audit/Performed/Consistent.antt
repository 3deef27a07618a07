-- ===== src/Audit/Performed/Consistent.antt =====
-- What an audit hands on is consistent.
use qsp_protocol_node.Prelude.{
  String, ◌≡◌, refl, arith, map, ok, >>=-eq-ok, ok-injective, ap, ◌∙◌, if_cases, subst,
}
use qsp_protocol_node.Evt.Decimal.{Text}
use qsp_protocol_node.Report.Types.{VulnerabilityTypes}
use qsp_protocol_node.Report.Json.{Report}
use qsp_protocol_node.Report.Bits.Hex.{to_upper}
use qsp_protocol_node.Report.Header.Versions.{Version, parse_version, format_version}
use qsp_protocol_node.Report.Vulnerabilities.RoundTrip.{AreTypes}
use qsp_protocol_node.Report.Vulnerabilities.Lists.{distinct_findings}
use qsp_protocol_node.Report.Produce.{produce_json}
use qsp_protocol_node.Report.Compress.{compress_report, decode_report, analyzers}
use qsp_protocol_node.Report.Compress.RoundTrip.{decode-compress_report}
use qsp_protocol_node.Threads.Perform.{AuditResult}
use qsp_protocol_node.Audit.Performed.{
  FullReport, Request, World, Upload, uploaded, not_uploaded, create_err_result, audit_report_from,
  get_full_report, audit_result, audit,
}

-- What of a report reaches the chain.
abbrev pub decoded : Version → Report → Report
decoded v report =
    produce_json (format_version v) report.audit_state report.status
      (map to_upper report.contract_hash) (distinct_findings (analyzers report))

audit_result-eq-ok :
    (world : World) (report : FullReport) (text : Text) (hash : String) (upload : Upload)
    (result : AuditResult)
    → audit_result world report text hash upload ≡ ok result
    → (result.audit_state ≡ report.report.audit_state)
      × (result.compressed_report ≡ text)
      × (result.audit_hash ≡ hash)
      × (result.full_report ≡ world.dumps report)
      × (upload ≡ uploaded result.audit_uri)
unfolding audit_result
audit_result-eq-ok world report text hash not_uploaded result h = absurd cc
audit_result-eq-ok world report text hash (uploaded url) result h =
    let (body, b, h₁) = >>=-eq-ok world.read_file _ h in
    let (upload, u, h₂) = >>=-eq-ok world.upload_contract _ h₁ in
    (ground arith, ground arith, ground arith, ground arith, ground arith)

-- The version in a full report is the node's.
full_report-version :
    (world : World) (request : Request) (report : FullReport)
    → get_full_report world request ≡ ok report
    → report.report.version ≡ world.node_version
unfolding get_full_report create_err_result audit_report_from
full_report-version world request report h =
    let (target, t, h₁) = >>=-eq-ok world.fetch_file _ h in
    let (source, s, h₂) = >>=-eq-ok world.read_contract _ h₁ in
    let (hash, d, h₃) = >>=-eq-ok world.digest_file _ h₂ in
    subst (λ (r : FullReport). r.report.version ≡ world.node_version) (ok-injective h₃)
      (if_cases (λ (r : FullReport). r.report.version ≡ world.node_version) _ (λ _. refl)
        (λ _. refl))

-- What an audit that returns hands on for the chain belongs together: the compressed report is that
-- of the full report, which the schema accepted; it is decoded to the same audit state as is handed
-- on beside it, and to the version of the node, the hash of the contract and its vulnerabilities. The
-- full report handed on is the plain print of it, the hash is that of its indented print, and the URL
-- that of the upload of this indented print under this hash. The types of vulnerabilities fit
-- together, and the version of the node is three numbers.
pub audit-decoded :
    (types : VulnerabilityTypes) (world : World) (request : Request) (result : AuditResult)
    (v : Version)
    → AreTypes types
    → parse_version world.node_version ≡ ok v
    → audit types world request ≡ ok result
    → (full_report validated : FullReport) × (get_full_report world request ≡ ok full_report)
      × (world.validate_json full_report ≡ ok validated)
      × (decode_report types result.compressed_report ≡ ok (decoded v full_report.report))
      × (result.audit_state ≡ full_report.report.audit_state)
      × (result.full_report ≡ world.dumps full_report)
      × (result.audit_hash ≡ world.digest (world.dumps_indented full_report))
      × (world.upload_report (world.dumps_indented full_report) result.audit_hash
          ≡ ok (uploaded result.audit_uri))
unfolding audit
audit-decoded types world request result v valid version h =
    let (full_report, f, h₁) = >>=-eq-ok (get_full_report world request) _ h in
    let (validated, d, h₂) = >>=-eq-ok (world.validate_json full_report) _ h₁ in
    let (text, c, h₃) = >>=-eq-ok (compress_report types full_report.report) _ h₂ in
    let printed = world.dumps_indented full_report in
    let (upload, u, h₄) = >>=-eq-ok (world.upload_report printed (world.digest printed)) _ h₃ in
    let (state, same, hashed, full, done) =
      audit_result-eq-ok world full_report text (world.digest printed) upload result h₄ in
    let parsed = ap parse_version (full_report-version world request full_report f) ∙ version in
    (
      full_report,
      validated,
      f,
      d,
      ap (decode_report types) same
          ∙ decode-compress_report types full_report.report text v valid parsed c,
      state,
      full,
      hashed,
      ap (world.upload_report printed) hashed ∙ u ∙ ap (λ (p : Upload). ok p) done,
    )
