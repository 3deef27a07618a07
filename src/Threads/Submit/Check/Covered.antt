-- ===== src/Threads/Submit/Check/Covered.antt =====
-- From the text that an auditor submits to the judgement of the police node that reads it back.
use qsp_protocol_node.Prelude.{
  ℕ, ◌/◌, ◌%◌, ◌<◌, ◌≡◌, ◌≢◌, refl, String, true, some, [], ◌∷◌, ◌++◌, append_assoc, All, map,
  arith, length, Result, ok, ok-injective, ap, sym, ◌∙◌,
}
use qsp_protocol_node.Evt.{Evt}
use qsp_protocol_node.Evt.Decimal.{Text}
use qsp_protocol_node.Report.Bits.{Bits, binary}
use qsp_protocol_node.Report.Bits.Hex.{
  hex_digit, hex_bits, hex_to_bitstring, hex_to_bitstring-any, binary-low_digit, to_upper,
}
use qsp_protocol_node.Report.Header.Versions.{Version, parse_version, format_version}
use qsp_protocol_node.Report.Types.{VulnerabilityTypes}
use qsp_protocol_node.Report.Json.{Report}
use qsp_protocol_node.Report.Vulnerabilities.{member}
use qsp_protocol_node.Report.Vulnerabilities.RoundTrip.{AreTypes}
use qsp_protocol_node.Report.Vulnerabilities.Lists.{distinct_findings}
use qsp_protocol_node.Report.Produce.{produce_json}
use qsp_protocol_node.Report.Compress.{compress_report, decode_report, analyzers}
use qsp_protocol_node.Report.Police.{
  Pairs, pair_eq, from_uncompressed_report, to_lower, decompressed, is_report_deemed_correct,
}
use qsp_protocol_node.Report.Police.Covered.{deemed_correct_covered}
use qsp_protocol_node.Threads.Submit.Check.{
  Bytes, lower_digit, hex, get_report_in_blockchain, check_report,
}

abbrev pub bytes_bits : Bytes → Bits
bytes_bits [] = []
bytes_bits (b ∷ bytes) = binary 8 b ++ bytes_bits bytes

-- Bytes that are those of a hex text: what `toBytes` of web3 makes of a text of whole bytes.
pub record Stands (bytes : Bytes) (text : Text) : Type 0 where
  pub are_bytes : All (λ b. b < 256) bytes
  pub some_bytes : bytes ≢ []
  pub same_bits : hex_bits text ≡ ok (bytes_bits bytes)

hex_digit-lower_digit : (d : ℕ) → d < 16 → hex_digit (lower_digit d) ≡ some d
unfolding hex_digit lower_digit
hex_digit-lower_digit d h = ground arith

hex_bits-hex :
    (bytes : Bytes) → All (λ b. b < 256) bytes → hex_bits (hex bytes) ≡ ok (bytes_bits bytes)
unfolding hex_bits hex
hex_bits-hex [] h = refl
hex_bits-hex (b ∷ bytes) h =
    let high = hex_digit-lower_digit (b / 16) (omega (arith, h.0)) in
    let low = hex_digit-lower_digit (b % 16) (omega arith) in
    let rest = bytes_bits bytes in
    let whole : binary 4 (b / 16) ++ (binary 4 (b % 16) ++ rest) ≡ binary 8 b ++ rest =
      sym (append_assoc (binary 4 (b / 16)) (binary 4 (b % 16)) rest)
      ∙ ap (λ (x : Bits). x ++ rest) (sym (binary-low_digit 4 b)) in
    rw high (rw low (rw (hex_bits-hex bytes h.1) (ap (λ (x : Bits). ok x) whole)))

some_hex : (bytes : Bytes) → bytes ≢ [] → 0 < length (hex bytes)
unfolding hex
some_hex [] n = absurd (n refl)
some_hex (b ∷ bytes) n = omega arith

some_bits : (b : ℕ) (bytes : Bytes) → bytes_bits (b ∷ bytes) ≢ []
unfolding binary
some_bits b bytes e = cc

some_text :
    (bytes : Bytes) (text : Text)
    → bytes ≢ []
    → hex_bits text ≡ ok (bytes_bits bytes)
    → 0 < length text
unfolding hex_bits
some_text [] text n h = absurd (n refl)
some_text (b ∷ bytes) [] n h = absurd (some_bits b bytes (sym (ok-injective h)))
some_text (b ∷ bytes) (c ∷ text) n h = omega arith

-- The digits in lower case are decoded as those in upper case.
decode-hex :
    (types : VulnerabilityTypes) (bytes : Bytes) (text : Text)
    → Stands bytes text
    → decode_report types (hex bytes) ≡ decode_report types text
unfolding decode_report
decode-hex types bytes text stands =
    let read : hex_to_bitstring (hex bytes) 0 ≡ ok (bytes_bits bytes) =
      hex_to_bitstring-any (hex bytes) _ (some_hex bytes stands.some_bytes)
        (hex_bits-hex bytes stands.are_bytes) in
    let read' : hex_to_bitstring text 0 ≡ ok (bytes_bits bytes) =
      hex_to_bitstring-any text _ (some_text bytes text stands.some_bytes stands.same_bits)
        stands.same_bits in
    rw (read, read') refl

decompressed-hex :
    (types : VulnerabilityTypes) (validate : Report → Result Report) (bytes : Bytes) (text : Text)
    → Stands bytes text
    → decompressed types validate (hex bytes) ≡ decompressed types validate text
unfolding decompressed
decompressed-hex types validate bytes text stands = rw (decode-hex types bytes text stands) refl

deemed-hex :
    (types : VulnerabilityTypes) (validate : Report → Result Report) (bytes : Bytes) (text : Text)
    (police_report : Report)
    → Stands bytes text
    → is_report_deemed_correct types validate (ok (some (hex bytes))) police_report
      ≡ is_report_deemed_correct types validate (ok (some text)) police_report
unfolding is_report_deemed_correct
deemed-hex types validate bytes text police_report stands =
    let same = decompressed-hex types validate bytes text stands in ground (arith, same)

report_found :
    (bytes : Bytes)
    → bytes ≢ []
    → get_report_in_blockchain (ok (some bytes)) ≡ ok (some (hex bytes))
unfolding get_report_in_blockchain
report_found [] n = absurd (n refl)
report_found (b ∷ bytes) n = refl

-- A police node accepts what covers its own report: where the contract holds the bytes of a report that
-- was compressed, the police node reads them back and deems the report correct, if the schema accepts
-- what they are decoded to, the contract hashes are the same up to case and not empty, and the report
-- has each vulnerability, by type and start line, that the police node found.
pub check_report_covered :
    (types : VulnerabilityTypes) (validate : Report → Result Report)
    (loads : String → Result Report) (evt : Evt)
    → (report validated police_report : Report) (text : Text) (bytes : Bytes) (dumped : String)
      (v : Version)
    → (auditor police : Pairs) → AreTypes types
    → parse_version report.version ≡ ok v
    → compress_report types report ≡ ok text
    → Stands bytes text
    → evt.full_report ≡ some dumped
    → loads dumped ≡ ok police_report
    → validate (
        produce_json
          (format_version v)
          report.audit_state
          report.status
          (map to_upper report.contract_hash)
          (distinct_findings (analyzers report)))
      ≡ ok validated
    → map to_lower police_report.contract_hash ≡ map to_lower report.contract_hash
    → map to_lower report.contract_hash ≢ []
    → from_uncompressed_report report ≡ ok auditor
    → from_uncompressed_report police_report ≡ ok police
    → ((q : String × ℕ) → member pair_eq q police ≡ true → member pair_eq q auditor ≡ true)
    → check_report types validate loads (ok (some bytes)) evt ≡ ok true
unfolding check_report
check_report_covered types validate loads evt report validated police_report text bytes dumped v
      auditor police valid version written stands full loaded accepted hashes some_hash a p covers =
    rw full (
      rw loaded (
        rw (report_found bytes stands.some_bytes) (
          deemed-hex types validate bytes text police_report stands
          ∙ deemed_correct_covered types validate report validated police_report text v auditor
              police valid version written accepted hashes some_hash a p covers)))
