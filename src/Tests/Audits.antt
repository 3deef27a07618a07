-- ===== src/Tests/Audits.antt =====
-- A contract is audited by one analyzer that finds a reentrancy, another does not compile, and a
-- request goes through the node to its end.
use qsp_protocol_node.Report.Types.{bits_eq, type_bits}
use qsp_protocol_node.Report.Vulnerabilities.{
  encode_instance, encode_instances, encode_potential, encode_vulnerabilities,
}
use qsp_protocol_node.Evt.Decimal.{int, str}
use qsp_protocol_node.Report.Header.{encode_header_bytes}
use qsp_protocol_node.Prelude.{
  ◌≡◌, refl, none, some, List, [], ◌∷◌, ◌++◌, arith, map, ok, raise, other, true, false, str_eq,
  if◌then◌else◌,
}
use qsp_protocol_node.Evt.{Evt, done, to_be_submitted, is_audit}
use qsp_protocol_node.Evt.Codec.{Row, encode, decode}
use qsp_protocol_node.Pool.Rows.{find}
use qsp_protocol_node.Pool.Manager.{get_events_to_be_submitted}
use qsp_protocol_node.Report.Produce.{produce_json}
use qsp_protocol_node.Report.Compress.{decode_report, compress_report}
use qsp_protocol_node.Report.Bits.{Bits, from_bitstring, to_bitstring}
use qsp_protocol_node.Report.Bits.Hex.{hex_bits, to_upper, hex_digit, hex_to_bitstring, to_hex}
use qsp_protocol_node.Report.Header.Versions.{parse_version, format_version}
use qsp_protocol_node.Threads.Chain.{submit_report}
use qsp_protocol_node.Threads.Perform.{AuditResult, process_audit_request}
use qsp_protocol_node.Threads.Submit
use qsp_protocol_node.Threads.Submit.{report_transaction}
use qsp_protocol_node.Threads.Poll.{Assignment}
use qsp_protocol_node.Audit.Wrapper.{Wrapper, reported}
use qsp_protocol_node.Audit.Compilation.{Compiled, output, check_compilation}
use qsp_protocol_node.Audit.Analyzers.{Joined}
use qsp_protocol_node.Audit.Performed.{
  FullReport, Request, World, uploaded, not_uploaded, get_full_report, audit,
}
use qsp_protocol_node.Audit.Performed.Consistent.{decoded, audit-decoded}
use qsp_protocol_node.Audit.Performed.Uncompiled.{Answers, messages_of, audit-uncompiled}
use qsp_protocol_node.Audit.Performed.Submitted.{answers_of, performed-submitted}
use qsp_protocol_node.Node.{Node, rows_of, new_node, Reach}
use qsp_protocol_node.Node.Completes.{Reach-done}
use qsp_protocol_node.Tests.Reports.{types, valid_types, reentrancy, report, version, value_of}
use qsp_protocol_node.Tests.Runs.{config, row_seven, evt_seven}

abbrev oyente : Wrapper
oyente = record {
  analyzer_name = "oyente";
  home = "/w/oyente";
  args = "";
  storage_dir = "/tmp";
  timeout_sec = 60;
}

abbrev found_reentrancy : Joined
found_reentrancy = record {
  wrapper = oyente;
  checked = reported (record {
    analyzer = none;
    status = some "success";
    errors = [];
    potential_vulnerabilities = some (reentrancy ∷ []);
  });
  has_written = true;
  is_alive = false;
  metadata = "oyente 0.2.7";
}

abbrev world_of : Compiled → World
world_of compiled = record {
  account = "0xa1";
  node_version = report.version;
  fetch_file = ok "/tmp/c.sol";
  read_contract = ok "contract C {}";
  rename = λ text. text;
  compile_standard = compiled;
  digest_file = ok report.contract_hash;
  joined = found_reentrancy ∷ [];
  time_out_text = λ wrapper. "time out";
  validate_json = λ full_report. ok full_report;
  dumps_indented = λ full_report. "{\n}";
  dumps = λ full_report. "{}";
  digest = λ text. if str_eq text "{}" then "44136fa3" else "ca3d163b";
  upload_report = λ text hash. ok (uploaded "file:///tmp/r.json");
  read_file = ok "contract C {}";
  upload_contract = ok not_uploaded;
}

abbrev request : Request
request = record { requestor = "0xee"; uri = "file://c.sol"; request_id = 7 }

abbrev compiles : World
compiles = world_of (output [])

abbrev no_result : AuditResult
no_result = record {
  audit_state = 0;
  audit_uri = "";
  audit_hash = "";
  full_report = "";
  compressed_report = [];
}

abbrev result : AuditResult
result = value_of no_result (audit types compiles request)

audited : audit types compiles request ≡ ok result
unfolding audit compress_report encode_header_bytes parse_version int to_bitstring hex_to_bitstring
    hex_digit encode_vulnerabilities encode_potential encode_instances encode_instance type_bits
    to_hex bits_eq from_bitstring
audited = refl

version_parsed : parse_version report.version ≡ ok version
unfolding parse_version int
version_parsed = refl

audit-decoded_example :
    (full_report validated : FullReport) × (get_full_report compiles request ≡ ok full_report)
    × (compiles.validate_json full_report ≡ ok validated)
    × (decode_report types result.compressed_report ≡ ok (decoded version full_report.report))
    × (result.audit_state ≡ full_report.report.audit_state)
    × (result.full_report ≡ compiles.dumps full_report)
    × (result.audit_hash ≡ compiles.digest (compiles.dumps_indented full_report))
    × (compiles.upload_report (compiles.dumps_indented full_report) result.audit_hash
        ≡ ok (uploaded result.audit_uri))
audit-decoded_example =
    audit-decoded types compiles request result version valid_types version_parsed audited

abbrev is_paid : Submit.Answers
is_paid = record {
  check_report = λ evt. raise (other "no police");
  send = λ transaction. ok "0x1f";
}

seven_is_audit : is_audit evt_seven ≡ true
unfolding is_audit
seven_is_audit = refl

seven_found : find 7 (row_seven ∷ []) ≡ some (encode evt_seven)
unfolding find encode str
seven_found = refl

performed-submitted_example :
    (row : Row) × (evt : Evt) × (full_report : FullReport) × (before after : List Row)
    × (row.request_id ≡ 7)
    × (row.fk_status ≡ to_be_submitted)
    × (get_events_to_be_submitted (
          process_audit_request
            (answers_of types compiles evt_seven 60)
            evt_seven
            (record { rows = row_seven ∷ []; closed = false }))
        ≡ before ++ (row ∷ after))
    × (decode row ≡ some evt)
    × (get_full_report compiles request ≡ ok full_report)
    × (report_transaction is_paid evt
        ≡ ok
            (submit_report 7 (some full_report.report.audit_state) (some result.compressed_report)))
    × (decode_report types result.compressed_report ≡ ok (decoded version full_report.report))
performed-submitted_example =
    performed-submitted types compiles evt_seven 60
      (record { rows = row_seven ∷ []; closed = false }) result version is_paid valid_types
      version_parsed refl refl seven_is_audit seven_found audited

-- A contract with an error of the compiler.
abbrev fails : World
fails = world_of (
    output
      (record { severity = some "error"; formatted_message = some "c.sol:1: expected ;" } ∷ []))

abbrev hash_bits : Bits
hash_bits = value_of [] (hex_bits report.contract_hash)

hash_digits : hex_bits report.contract_hash ≡ ok hash_bits
unfolding hex_bits hex_digit
hash_digits = refl

fails_with : (messages_of fails).errors ≡ "c.sol:1: expected ;" ∷ []
unfolding check_compilation
fails_with = refl

fails_answers : Answers fails request
fails_answers = record {
  contract = "/tmp/c.sol";
  source = "contract C {}";
  hash = report.contract_hash;
  url = "file:///tmp/r.json";
  body = "contract C {}";
  contract_upload = not_uploaded;
  bits = hash_bits;
  v = version;
  error = "c.sol:1: expected ;";
  errors = [];
  fetched = refl;
  read = refl;
  digested = refl;
  digits = hash_digits;
  hash_size = refl;
  parsed = version_parsed;
  fits = (omega arith, omega arith, omega arith);
  compile_errors = fails_with;
  accepted = refl;
  report_uploaded = refl;
  read_again = refl;
  contract_uploaded = refl;
}

audit-uncompiled_example :
    (result : AuditResult) × (audit types fails request ≡ ok result)
    × (result.audit_state ≡ 5)
    × (result.audit_uri ≡ "file:///tmp/r.json")
    × (result.audit_hash ≡ "ca3d163b")
    × (result.full_report ≡ "{}")
    × (decode_report types result.compressed_report
        ≡ ok (
            produce_json (format_version version) 5 "error" (map to_upper report.contract_hash) []))
unfolding fails_answers
audit-uncompiled_example = audit-uncompiled types fails request valid_types fails_answers

abbrev seven : Assignment
seven = record {
  request_id = 7;
  requestor = "0xee";
  uri = "file://c.sol";
  price = 90;
  block_number = 41;
}

Reach-done_example :
    (n : Node) × (row : Row) × Reach config new_node n
    × (find 7 (rows_of n) ≡ some row)
    × (row.fk_status ≡ done)
    × (row.submission_attempts ≡ 1)
    × (row.tx_hash ≡ some "0x1f")
    × (row.audit_state ≡ some result.audit_state)
    × (row.compressed_report ≡ some result.compressed_report)
Reach-done_example =
    Reach-done config seven result "0x1f" 50 60 70 90 (λ e. absurd (omega arith)) (omega arith)
      (omega arith)
