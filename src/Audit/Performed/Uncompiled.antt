-- ===== src/Audit/Performed/Uncompiled.antt =====
-- A contract that does not compile.
use qsp_protocol_node.Prelude.{◌≡◌, refl, String, List, [], ◌∷◌, map, ok, length}
use qsp_protocol_node.Evt.Decimal.{Text}
use qsp_protocol_node.Report.Bits.{Bits}
use qsp_protocol_node.Report.Bits.Hex.{hex_bits, to_upper}
use qsp_protocol_node.Report.Header.Versions.{Version, parse_version, format_version}
use qsp_protocol_node.Report.Types.{VulnerabilityTypes}
use qsp_protocol_node.Report.Vulnerabilities.RoundTrip.{AreTypes}
use qsp_protocol_node.Report.Vulnerabilities.{from_keys}
use qsp_protocol_node.Report.Vulnerabilities.Lists.{report_findings}
use qsp_protocol_node.Report.Produce.{produce_json}
use qsp_protocol_node.Report.Compress.{decode_report}
use qsp_protocol_node.Report.Compress.Errors.{Fits, compress_report-error}
use qsp_protocol_node.Report.Compress.RoundTrip.{decode-compress_report}
use qsp_protocol_node.Threads.Perform.{AuditResult}
use qsp_protocol_node.Audit.Compilation.{Messages, check_compilation}
use qsp_protocol_node.Audit.Performed.{
  Request, World, Upload, uploaded, create_err_result, get_full_report, audit_result, audit,
}

abbrev pub messages_of : World → Messages
messages_of world = check_compilation world.rename world.compile_standard

-- The compiler gives an error, and all that the audit then asks of the world is answered: the files
-- are read, the hash of the contract has 64 hexadecimal digits, the numbers of the version fit, the
-- schema accepts the report and the report is uploaded. Nothing is supposed of the analyzers, and the
-- upload of the contract may be refused.
pub record Answers (world : World) (request : Request) : Type 0 where
  pub contract : String
  pub source : String
  pub hash : Text
  pub url : String
  pub body : String
  pub contract_upload : Upload
  pub bits : Bits
  pub v : Version
  pub error : String
  pub errors : List String
  pub fetched : world.fetch_file ≡ ok contract
  pub read : world.read_contract ≡ ok source
  pub digested : world.digest_file ≡ ok hash
  pub digits : hex_bits hash ≡ ok bits
  pub hash_size : length hash ≡ 64
  pub parsed : parse_version world.node_version ≡ ok v
  pub fits : Fits v
  pub compile_errors : (messages_of world).errors ≡ error ∷ errors
  pub accepted :
      world.validate_json (create_err_result world request (messages_of world) hash)
      ≡ ok (create_err_result world request (messages_of world) hash)
  pub report_uploaded :
      world.upload_report
        (world.dumps_indented (create_err_result world request (messages_of world) hash))
        (world.digest
          (world.dumps_indented (create_err_result world request (messages_of world) hash)))
      ≡ ok (uploaded url)
  pub read_again : world.read_file ≡ ok body
  pub contract_uploaded : world.upload_contract ≡ ok contract_upload

get_full_report-error :
    (world : World) (request : Request)
    → (a : Answers world request)
    → get_full_report world request
      ≡ ok (create_err_result world request (messages_of world) a.hash)
unfolding get_full_report
get_full_report-error world request a =
    rw a.fetched (rw a.read (rw a.digested (rw a.compile_errors refl)))

-- Where the compiler gives an error, the files are read, the hash of the contract has 64 hexadecimal
-- digits, the version is three numbers that fit, and the report of the error is accepted by the schema
-- and uploaded, the audit returns, whatever the analyzers would say and also where the upload of the
-- contract is refused. Its state is 5, its URL is that of the upload, its hash is that of the indented
-- print of the report of the error, its full report the plain print, and the compressed report is read
-- back as the state 5, the status "error", the hash of the contract and no vulnerabilities.
pub audit-uncompiled :
    (types : VulnerabilityTypes) (world : World) (request : Request)
    → AreTypes types
    → (a : Answers world request)
    → (result : AuditResult) × (audit types world request ≡ ok result)
      × (result.audit_state ≡ 5)
      × (result.audit_uri ≡ a.url)
      × (result.audit_hash
          ≡ world.digest
              (world.dumps_indented (create_err_result world request (messages_of world) a.hash)))
      × (result.full_report
          ≡ world.dumps (create_err_result world request (messages_of world) a.hash))
      × (decode_report types result.compressed_report
          ≡ ok (produce_json (format_version a.v) 5 "error" (map to_upper a.hash) []))
unfolding audit audit_result create_err_result from_keys report_findings
audit-uncompiled types world request valid a =
    let (text, c) =
      compress_report-error types world.node_version a.hash a.v a.bits a.parsed a.fits a.digits
        a.hash_size in
    let full = create_err_result world request (messages_of world) a.hash in
    (
      record {
        audit_state = 5;
        audit_uri = a.url;
        audit_hash = world.digest (world.dumps_indented full);
        full_report = world.dumps full;
        compressed_report = text;
      },
      rw (get_full_report-error world request a) (
          rw a.accepted
            (rw c (rw a.report_uploaded (rw a.read_again (rw a.contract_uploaded refl))))),
      refl,
      refl,
      refl,
      refl,
      decode-compress_report types full.report text a.v valid a.parsed c,
    )
