-- ===== src/Report/Compress.antt =====
-- ReportEncoder.compress_report and decode_report.
pub mod RoundTrip
pub mod Errors
use qsp_protocol_node.Prelude.{
  ℕ, ◌≡◌, String, Option, none, some, List, [], ◌∷◌, ◌++◌, take, drop, Result, ok, raise, Exn,
  report_formatting, other, ◌>>=◌,
}
use qsp_protocol_node.Evt.Decimal.{Text}
use qsp_protocol_node.Report.Bits.{Bits}
use qsp_protocol_node.Report.Bits.Hex.{hex_to_bitstring, to_hex}
use qsp_protocol_node.Report.Header.{encode_header_bytes, decode_header_bytes}
use qsp_protocol_node.Report.Types.{VulnerabilityTypes}
use qsp_protocol_node.Report.Json.{AnalyzerReport, Report}
use qsp_protocol_node.Report.Vulnerabilities.{encode_vulnerabilities, decode_vulnerabilities}
use qsp_protocol_node.Report.Produce.{produce_json}

abbrev pub header_size : ℕ
header_size = 16

abbrev pub contract_hash_size : ℕ
contract_hash_size = 256

abbrev pub vulnerabilities_start : ℕ
vulnerabilities_start = 272

-- `report.get("analyzers_reports", [])`.
abbrev pub analyzers : Report → List AnalyzerReport
analyzers report = elim report.analyzers_reports [ none ↦ [] | some reports ↦ reports ]

-- The body of the `try`.
unfoldable pub compress : VulnerabilityTypes → Report → Result Text
compress types report = do
  b_header ← encode_header_bytes report.version report.audit_state report.status
  b_contract_hash ← hex_to_bitstring report.contract_hash contract_hash_size
  b_vulnerabilities ← encode_vulnerabilities types (analyzers report)
  to_hex (b_header ++ (b_contract_hash ++ b_vulnerabilities))

-- The two `except` clauses: a formatting error goes on as it is, any other under one message.
unfoldable pub rethrow : Result Text → Result Text
rethrow (ok text) = ok text
rethrow (raise report_formatting) = raise report_formatting
rethrow (raise e) = raise (other "Report could not be compressed")

unfoldable pub compress_report : VulnerabilityTypes → Report → Result Text
unfolding compress rethrow
compress_report types report = rethrow (compress types report)

unfoldable pub decode_report : VulnerabilityTypes → Text → Result Report
decode_report types report = do
  b_report ← hex_to_bitstring report 0
  header ← decode_header_bytes (take header_size b_report)
  contract_hash ← to_hex (take contract_hash_size (drop header_size b_report))
  vulnerabilities ← decode_vulnerabilities types (drop vulnerabilities_start b_report)
  ok (produce_json header.version header.audit_state header.status contract_hash vulnerabilities)
