-- ===== src/Tests/Reports.antt =====
-- Reports of two vulnerabilities, one of them listed twice, through the encoder and the decoder.
use qsp_protocol_node.Report.Vulnerabilities.Encoding.{finding}
use qsp_protocol_node.Prelude.{
  ◌∙◌, ◌≡◌, refl, ◌*◌, true, false, Option, none, some, List, [], ◌∷◌, ◌++◌, map, length, arith,
  Result, ok,
}
use qsp_protocol_node.Evt.Decimal.{Text, str, int, int-str}
use qsp_protocol_node.Report.Bits.{Bits, binary, to_bitstring, from_bitstring}
use qsp_protocol_node.Report.Bits.Hex.{
  hex_bits, hex_to_bitstring, to_hex, to_upper, hex_to_bitstring-to_hex, hex_digit,
}
use qsp_protocol_node.Report.Bits.Upper.{to_hex-hex_bits}
use qsp_protocol_node.Report.Header.{encode_header_bytes, decode_header_bytes, decode-encode_header}
use qsp_protocol_node.Report.Header.Versions.{
  Version, parse_version, format_version, parse_version-format_version,
}
use qsp_protocol_node.Report.Types.{
  VulnerabilityTypes, initialize_vulnerability_types, type_bits, bits_eq,
}
use qsp_protocol_node.Report.Json.{Vulnerability, AnalyzerReport, Report}
use qsp_protocol_node.Report.Vulnerabilities.{
  encode_vulnerabilities, decode_vulnerabilities, encode_instance, encode_instances,
  encode_potential, from_keys,
}
use qsp_protocol_node.Report.Vulnerabilities.RoundTrip.{AreTypes, initialize-AreTypes}
use qsp_protocol_node.Report.Vulnerabilities.Lists.{
  distinct_findings, decode-encode_vulnerabilities, finding_eq, report_findings,
}
use qsp_protocol_node.Report.Produce.{produce_json}
use qsp_protocol_node.Report.Compress.{compress_report, decode_report}
use qsp_protocol_node.Report.Police.{is_report_deemed_correct, compare_reports, Agree}
use qsp_protocol_node.Report.Police.Judged.{deemed_correct-Agree, deemed_correct-compare}
use qsp_protocol_node.Report.Compress.RoundTrip.{decode-compress_report}

abbrev pub types : VulnerabilityTypes
types =
    ("call_stack_depth", false ∷ false ∷ false ∷ false ∷ false ∷ false ∷ false ∷ false ∷ [])
    ∷ ("reentrancy", false ∷ false ∷ false ∷ false ∷ false ∷ false ∷ false ∷ true ∷ [])
    ∷ []

types_initialized :
    initialize_vulnerability_types ("call_stack_depth" ∷ "reentrancy" ∷ []) ≡ ok types
unfolding initialize_vulnerability_types to_bitstring
types_initialized = refl

initialize-AreTypes_example : AreTypes types
initialize-AreTypes_example =
    initialize-AreTypes ("call_stack_depth" ∷ "reentrancy" ∷ []) types types_initialized

pub valid_types : AreTypes types
valid_types = initialize-AreTypes ("call_stack_depth" ∷ "reentrancy" ∷ []) types types_initialized

abbrev pub reentrancy : Vulnerability
reentrancy = record {
  type = some "reentrancy";
  file = "c.sol";
  instances =
      record { ref_id = 0; start_line = 25; end_line = some 30 }
      ∷ record { ref_id = 1; start_line = 40; end_line = none }
      ∷ record { ref_id = 2; start_line = 25; end_line = some 30 }
      ∷ [];
}

abbrev reports : List AnalyzerReport
reports =
    record {
      status = "success";
      analyzer = "oyente";
      potential_vulnerabilities = some (reentrancy ∷ []);
    }
    ∷ record { status = "error"; analyzer = "mythril"; potential_vulnerabilities = none }
    ∷ []

abbrev eight_digits : Text
eight_digits = b'd' ∷ b'e' ∷ b'a' ∷ b'd' ∷ b'B' ∷ b'E' ∷ b'0' ∷ b'7' ∷ []

abbrev sixteen_digits : Text
sixteen_digits = eight_digits ++ eight_digits

abbrev pub thirty_two_digits : Text
thirty_two_digits = sixteen_digits ++ sixteen_digits

abbrev pub report : Report
report = record {
  version = b'2' ∷ b'.' ∷ b'0' ∷ b'.' ∷ b'1' ∷ [];
  audit_state = 4;
  status = "success";
  contract_hash = thirty_two_digits ++ thirty_two_digits;
  analyzers_reports = some reports;
}

abbrev pub version : Version
version = record { major = 2; minor = 0; patch = 1 }

abbrev pub value_of : {A : Type 0} → A → Result A → A
value_of a (ok b) = b
value_of a _ = a

abbrev code : Bits
code = value_of [] (encode_vulnerabilities types reports)

code_encoded : encode_vulnerabilities types reports ≡ ok code
unfolding encode_vulnerabilities encode_potential encode_instances encode_instance type_bits
    to_bitstring
code_encoded = refl

decode-encode_vulnerabilities_example :
    decode_vulnerabilities types code ≡ ok (distinct_findings reports)
decode-encode_vulnerabilities_example =
    decode-encode_vulnerabilities types reports code valid_types code_encoded

abbrev pub text : Text
text = value_of [] (compress_report types report)

pub text_compressed : compress_report types report ≡ ok text
unfolding compress_report encode_header_bytes parse_version int to_bitstring hex_to_bitstring
    hex_digit encode_vulnerabilities encode_potential encode_instances encode_instance type_bits
    to_hex bits_eq from_bitstring
text_compressed = refl

pub version_parsed : parse_version report.version ≡ ok version
unfolding parse_version int
version_parsed = refl

decode-compress_report_example :
    decode_report types text
    ≡ ok (
        produce_json
          (format_version version)
          4
          "success"
          (map to_upper report.contract_hash)
          (distinct_findings reports))
decode-compress_report_example =
    decode-compress_report types report text version valid_types version_parsed text_compressed

abbrev header_bits : Bits
header_bits = value_of [] (encode_header_bytes report.version 4 "success")

header_parts : encode_header_bytes report.version 4 "success" ≡ ok header_bits
unfolding encode_header_bytes parse_version int to_bitstring
header_parts = refl

decode-encode_header_example :
    (v : Version) × (parse_version report.version ≡ ok v)
    × (length header_bits ≡ 16)
    × (decode_header_bytes header_bits
        ≡ ok (record { version = format_version v; audit_state = 4; status = "success" }))
decode-encode_header_example =
    decode-encode_header report.version 4 "success" header_bits header_parts

parse_version-format_version_example : parse_version (format_version version) ≡ ok version
parse_version-format_version_example = parse_version-format_version version

abbrev eight_bits : Bits
eight_bits = value_of [] (hex_bits eight_digits)

eight_bits_lem : length eight_bits ≡ 8 * 4
unfolding hex_bits hex_digit binary
eight_bits_lem = refl

hex_bits_eight : hex_bits eight_digits ≡ ok eight_bits
unfolding hex_bits hex_digit
hex_bits_eight = refl

to_hex-hex_bits_example : to_hex eight_bits ≡ ok (map to_upper eight_digits)
to_hex-hex_bits_example = to_hex-hex_bits eight_digits eight_bits (omega arith) hex_bits_eight

hex_to_bitstring-to_hex_example :
    (s : Text) × (to_hex eight_bits ≡ ok s) × (hex_to_bitstring s 0 ≡ ok eight_bits)
hex_to_bitstring-to_hex_example = hex_to_bitstring-to_hex eight_bits 8 eight_bits_lem (omega arith)

int-str_example : int (str 90) ≡ some 90
int-str_example = int-str 90

-- The police node decodes the report of the chain, which here is its own.
abbrev pub audit_report : Report
audit_report =
    produce_json (format_version version) 4 "success" (map to_upper report.contract_hash)
      (distinct_findings reports)

own_compared : compare_reports audit_report report ≡ ok true
unfolding compare_reports produce_json to_upper from_keys report_findings finding_eq finding
own_compared = refl

own_deemed_correct : is_report_deemed_correct types (λ r. ok r) (ok (some text)) report ≡ ok true
own_deemed_correct =
    deemed_correct-compare types (λ r. ok r) text audit_report audit_report report
      decode-compress_report_example refl
    ∙ own_compared

deemed_correct-Agree_example :
    (compressed : Text) × (found validated : Report) × (◌≡◌ {A = Result (Option Text)}
      (ok (some text))
      (ok (some compressed)))
    × (decode_report types compressed ≡ ok found)
    × (◌≡◌ {A = Result Report} (ok found) (ok validated))
    × Agree found report
deemed_correct-Agree_example =
    deemed_correct-Agree types (λ r. ok r) (ok (some text)) report own_deemed_correct
