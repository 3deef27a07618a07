-- ===== src/Audit/Performed.antt =====
-- PerformAuditThread.get_full_report and audit (audit/threads/perform_audit_thread.py): a contract is
-- compiled, analyzed, and its report validated, compressed and uploaded.
pub mod Consistent
pub mod Uncompiled
pub mod Submitted
use qsp_protocol_node.Prelude.{
  ℕ, String, Bool, true, false, Option, none, some, List, [], ◌∷◌, if◌then◌else◌, Result, ok, raise,
  other, ◌>>=◌,
}
use qsp_protocol_node.Evt.Decimal.{Text}
use qsp_protocol_node.Report.Types.{VulnerabilityTypes}
use qsp_protocol_node.Report.Json.{AnalyzerReport, Report}
use qsp_protocol_node.Report.Compress.{compress_report}
use qsp_protocol_node.Threads.Perform.{AuditResult}
use qsp_protocol_node.Threads.Perform.Outcome.{LocalReport, compute_audit_result}
use qsp_protocol_node.Audit.Wrapper.{Wrapper}
use qsp_protocol_node.Audit.Compilation.{Compiled, Messages, check_compilation}
use qsp_protocol_node.Audit.Analyzers.{Joined, collect_all, repaired, as_analyzer_report}

-- The report that the node writes. The times of the analyzers and its own are left out.
pub record FullReport : Type 0 where
  pub report : Report
  pub contract_uri : String
  pub requestor : String
  pub auditor : String
  pub request_id : ℕ
  pub compilation_errors : List String
  pub compilation_warnings : List String

pub record Request : Type 0 where
  pub requestor : String
  pub uri : String
  pub request_id : ℕ

-- `upload_result`: a success with its URL, or not.
pub data Upload : Type 0 where
  uploaded : String → Upload
  not_uploaded : Upload

-- The node's account and version, and all that an audit asks for outside: files, the compiler, the
-- threads of the analyzers, the schema, `json.dumps` (with `indent=2` and without), the digest and the
-- uploads; that of the report takes its text and its hash.
pub record World : Type 0 where
  pub account : String
  pub node_version : Text
  pub fetch_file : Result String
  pub read_contract : Result String
  pub rename : String → String
  pub compile_standard : Compiled
  pub digest_file : Result Text
  pub joined : List Joined
  pub time_out_text : Wrapper → String
  pub validate_json : FullReport → Result FullReport
  pub dumps_indented : FullReport → String
  pub dumps : FullReport → String
  pub digest : String → String
  pub upload_report : String → String → Result Upload
  pub read_file : Result String
  pub upload_contract : Result Upload

-- __create_err_result
unfoldable pub create_err_result : World → Request → Messages → Text → FullReport
create_err_result world request messages contract_hash = record {
  report = record {
    version = world.node_version;
    audit_state = 5;
    status = "error";
    contract_hash = contract_hash;
    analyzers_reports = none;
  };
  contract_uri = request.uri;
  requestor = request.requestor;
  auditor = world.account;
  request_id = request.request_id;
  compilation_errors = messages.errors;
  compilation_warnings = messages.warnings;
}

unfoldable pub as_analyzer_reports : List LocalReport → List AnalyzerReport
unfolding as_analyzer_report
as_analyzer_reports [] = []
as_analyzer_reports (report ∷ reports) = as_analyzer_report report ∷ as_analyzer_reports reports

-- The key is set only if there are reports.
abbrev some_if_any : List AnalyzerReport → Option (List AnalyzerReport)
some_if_any [] = none
some_if_any (report ∷ reports) = some (report ∷ reports)

-- The report of get_audit_report_from_analyzers, and its warnings.
unfoldable pub audit_report_from : World → Request → Messages → Text → FullReport
unfolding collect_all repaired as_analyzer_reports compute_audit_result
audit_report_from world request messages contract_hash =
    let local_reports = collect_all world.time_out_text world.joined in
    let (audit_state, audit_status) = compute_audit_result local_reports in
    record {
      report = record {
        version = world.node_version;
        audit_state = audit_state;
        status = audit_status;
        contract_hash = contract_hash;
        analyzers_reports = some_if_any (as_analyzer_reports (repaired local_reports));
      };
      contract_uri = request.uri;
      requestor = request.requestor;
      auditor = world.account;
      request_id = request.request_id;
      compilation_errors = [];
      compilation_warnings = messages.warnings;
    }

abbrev is_empty : List String → Bool
is_empty [] = true
is_empty (s ∷ ss) = false

unfoldable pub get_full_report : World → Request → Result FullReport
unfolding create_err_result audit_report_from check_compilation
get_full_report world request = do
  target_contract ← world.fetch_file
  source ← world.read_contract
  contract_hash ← world.digest_file
  let messages = check_compilation world.rename world.compile_standard
  ok (
      if is_empty messages.errors
      then audit_report_from world request messages contract_hash
      else create_err_result world request messages contract_hash)

-- The end of `audit`, once the report is uploaded: what becomes of the contract's upload is only logged.
unfoldable pub audit_result : World → FullReport → Text → String → Upload → Result AuditResult
audit_result world full_report compressed_report audit_hash not_uploaded =
    raise (other "Error uploading report")
audit_result world full_report compressed_report audit_hash (uploaded url) = do
  contract_body ← world.read_file
  contract_upload_result ← world.upload_contract
  ok (record {
    audit_state = full_report.report.audit_state;
    audit_uri = url;
    audit_hash = audit_hash;
    full_report = world.dumps full_report;
    compressed_report = compressed_report;
  })

unfoldable pub audit : VulnerabilityTypes → World → Request → Result AuditResult
unfolding get_full_report audit_result
audit types world request = do
  audit_report ← get_full_report world request
  validated ← world.validate_json audit_report
  compressed_report ← compress_report types audit_report.report
  let audit_report_str = world.dumps_indented audit_report
  let audit_hash = world.digest audit_report_str
  upload_result ← world.upload_report audit_report_str audit_hash
  audit_result world audit_report compressed_report audit_hash upload_result
