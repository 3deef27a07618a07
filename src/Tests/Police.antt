-- ===== src/Tests/Police.antt =====
-- A police node reads the report of an auditor from the chain and judges it by its own.
use qsp_protocol_node.Report.Types.{bits_eq, type_bits}
use qsp_protocol_node.Report.Bits.{from_bitstring, to_bitstring}
use qsp_protocol_node.Report.Header.Versions.{parse_version}
use qsp_protocol_node.Report.Header.{encode_header_bytes}
use qsp_protocol_node.Report.Compress.{compress_report}
use qsp_protocol_node.Prelude.{
  ℕ, String, ◌+◌, ◌*◌, ◌<◌, ◌≡◌, ◌≢◌, refl, Bool, true, ◌&&◌, Option, none, some, List, [], ◌∷◌,
  All, map, ltb, arith, ok,
}
use qsp_protocol_node.Evt.{Evt}
use qsp_protocol_node.Evt.Decimal.{Text, int}
use qsp_protocol_node.Report.Bits.Hex.{hex_digit, hex_bits, to_upper, hex_to_bitstring, to_hex}
use qsp_protocol_node.Report.Json.{Report}
use qsp_protocol_node.Report.Vulnerabilities.{
  member, encode_instance, encode_instances, encode_potential, encode_vulnerabilities,
}
use qsp_protocol_node.Report.Police.{Pairs, pair_eq, from_uncompressed_report, to_lower}
use qsp_protocol_node.Threads.Submit.Check.{Bytes, check_report}
use qsp_protocol_node.Threads.Submit.Check.Covered.{Stands, bytes_bits, check_report_covered}
use qsp_protocol_node.Evt.Decimal.{int}
use qsp_protocol_node.Report.Bits.{binary, to_bitstring, from_bitstring}
use qsp_protocol_node.Report.Bits.Hex.{hex_to_bitstring, to_hex}
use qsp_protocol_node.Report.Header.{encode_header_bytes}
use qsp_protocol_node.Report.Header.Versions.{parse_version}
use qsp_protocol_node.Report.Types.{type_bits, bits_eq}
use qsp_protocol_node.Report.Compress.{compress_report}
use qsp_protocol_node.Report.Vulnerabilities.{
  encode_vulnerabilities, encode_potential, encode_instances, encode_instance, from_keys,
}
use qsp_protocol_node.Tests.Reports.{
  types, valid_types, reentrancy, report, version, version_parsed, text, text_compressed,
  audit_report,
}
use qsp_protocol_node.Tests.Runs.{evt_seven}

-- A police node that has found one of the two lines only, with its hash in upper case.
abbrev police_report : Report
police_report = record report {
  contract_hash = map to_upper report.contract_hash;
  analyzers_reports = some (
      record {
        status = "success";
        analyzer = "securify";
        potential_vulnerabilities = some (
            record reentrancy {
              instances = record { ref_id = 0; start_line = 40; end_line = none } ∷ [];
            }
            ∷ []);
      }
      ∷ []);
}

abbrev auditor_pairs : Pairs
auditor_pairs = ("reentrancy", 25) ∷ ("reentrancy", 40) ∷ []

auditor_set : from_uncompressed_report report ≡ ok auditor_pairs
unfolding from_uncompressed_report from_keys
auditor_set = refl

police_set : from_uncompressed_report police_report ≡ ok (("reentrancy", 40) ∷ [])
unfolding from_uncompressed_report from_keys
police_set = refl

same_hash : map to_lower police_report.contract_hash ≡ map to_lower report.contract_hash
unfolding to_upper to_lower
same_hash = refl

police_covered :
    (q : String × ℕ)
    → member pair_eq q (("reentrancy", 40) ∷ []) ≡ true
    → member pair_eq q auditor_pairs ≡ true
unfolding member
police_covered q m = ground arith

-- The bytes of a hex text.
abbrev digit : Option ℕ → ℕ
digit none = 0
digit (some d) = d

bytes_of : Text → Bytes
bytes_of [] = []
bytes_of (c ∷ []) = []
bytes_of (c ∷ d ∷ s) = (digit (hex_digit c) * 16 + digit (hex_digit d)) ∷ bytes_of s

abbrev bytes : Bytes
bytes = bytes_of text

abbrev are_below : List ℕ → Bool
are_below [] = true
are_below (b ∷ bs) = ltb b 256 && are_below bs

below_bytes : (bs : List ℕ) → are_below bs ≡ true → All (λ b. b < 256) bs
below_bytes [] h = tt
below_bytes (b ∷ bs) h = (ground arith, below_bytes bs (ground arith))

all_below : are_below bytes ≡ true
unfolding bytes_of compress_report encode_header_bytes parse_version int to_bitstring
    hex_to_bitstring hex_digit encode_vulnerabilities encode_potential encode_instances
    encode_instance type_bits to_hex bits_eq from_bitstring
all_below = refl

read_bits : hex_bits text ≡ ok (bytes_bits bytes)
unfolding bytes_of compress_report encode_header_bytes parse_version int to_bitstring
    hex_to_bitstring hex_digit encode_vulnerabilities encode_potential encode_instances
    encode_instance type_bits to_hex bits_eq from_bitstring hex_bits binary
read_bits = refl

some_bytes : bytes ≢ []
unfolding bytes_of compress_report encode_header_bytes parse_version int to_bitstring
    hex_to_bitstring hex_digit encode_vulnerabilities encode_potential encode_instances
    encode_instance type_bits to_hex bits_eq from_bitstring
some_bytes e = cc

stands : Stands bytes text
stands = record {
  are_bytes = below_bytes bytes all_below;
  some_bytes = some_bytes;
  same_bits = read_bits;
}

abbrev police_evt : Evt
police_evt = record evt_seven { full_report = some "{}" }

check_report_covered_example :
    check_report types (λ r. ok r) (λ dumped. ok police_report) (ok (some bytes)) police_evt
    ≡ ok true
check_report_covered_example =
    check_report_covered types (λ r. ok r) (λ dumped. ok police_report) police_evt report
      audit_report police_report text bytes "{}" version auditor_pairs (("reentrancy", 40) ∷ [])
      valid_types version_parsed text_compressed stands refl refl refl same_hash (λ e. cc)
      auditor_set police_set police_covered
