-- ===== src/Report/Compress/RoundTrip.antt =====
-- A report that is compressed is decoded to what the format keeps of it.
use qsp_protocol_node.Prelude.{
  ℕ, ◌*◌, ◌/◌, ◌%◌, ◌<◌, ◌≡◌, String, List, [], ◌∷◌, ◌++◌, arith, map, ◌==◌, length, take, drop,
  Result, ok, raise, >>=-eq-ok, ok-injective, Bool-cases, inl, inr, ap, sym, ◌∙◌, length-append,
  append_assoc, take-append, drop-append, subst, report_formatting,
}
use qsp_protocol_node.Evt.Decimal.{Text}
use qsp_protocol_node.Report.Bits.{Bits}
use qsp_protocol_node.Report.Bits.Hex.{
  hex_to_bitstring, to_hex, hex_bits, to_upper, hex_to_bitstring-to_hex,
}
use qsp_protocol_node.Report.Bits.Upper.{to_hex-hex_bits, length-hex_bits}
use qsp_protocol_node.Report.Header.{
  Header, encode_header_bytes, decode_header_bytes, IsHeader, encode_header_bytes-IsHeader,
  length-header, decode-IsHeader,
}
use qsp_protocol_node.Report.Header.Versions.{Version, parse_version, format_version}
use qsp_protocol_node.Report.Types.{VulnerabilityTypes}
use qsp_protocol_node.Report.Json.{Report}
use qsp_protocol_node.Report.Vulnerabilities.{
  Finding, encode_vulnerabilities, decode_vulnerabilities,
}
use qsp_protocol_node.Report.Vulnerabilities.RoundTrip.{AreTypes}
use qsp_protocol_node.Report.Vulnerabilities.Lists.{
  distinct_findings, decode-encode_vulnerabilities,
}
use qsp_protocol_node.Report.Produce.{produce_json}
use qsp_protocol_node.Report.Compress.{
  compress, rethrow, compress_report, decode_report, analyzers, contract_hash_size,
}

rethrow-eq-ok : (r : Result Text) (text : Text) → rethrow r ≡ ok text → r ≡ ok text
unfolding rethrow
rethrow-eq-ok (ok t) text h = h
rethrow-eq-ok (raise report_formatting) text h = cc
rethrow-eq-ok (raise e) text h = cc

-- Bits that are written in hex come in whole digits, and are read back.
read_hex :
    (bits : Bits) (text : Text)
    → to_hex bits ≡ ok text
    → 0 < length bits
    → hex_to_bitstring text 0 ≡ ok bits
read_hex bits text h pos =
    let whole : length bits % 4 ≡ 0 = unfold to_hex in ground arith in
    let (s, written, back) =
      hex_to_bitstring-to_hex bits (length bits / 4) (omega arith) (omega arith) in
    ap (λ (t : Text). hex_to_bitstring t 0) (ok-injective (sym h ∙ written)) ∙ back

-- A contract hash that is accepted has 64 digits.
hash_bits :
    (hash : Text) (bits : Bits)
    → hex_to_bitstring hash contract_hash_size ≡ ok bits
    → (hex_bits hash ≡ ok bits) × (length hash ≡ 64)
unfolding hex_to_bitstring
hash_bits [] bits h = cc
hash_bits (c ∷ s) bits h = elim (Bool-cases (length (c ∷ s) * 4 == contract_hash_size)) [
  | inl e ↦ (ground arith, ground arith)
  | inr e ↦ absurd (ground arith)
]

-- The three parts of a report of 16, 256 and any number of bits.
module _ (b_header b_hash b_rest : Bits) (sixteen : length b_header ≡ 16)
    (hash_size : length b_hash ≡ 256) where
  abbrev whole : Bits
  whole = b_header ++ (b_hash ++ b_rest)

  part_header : take 16 whole ≡ b_header
  part_header = take-append 16 b_header (b_hash ++ b_rest) sixteen

  part_hash : take 256 (drop 16 whole) ≡ b_hash
  part_hash =
      ap (λ (b : Bits). take 256 b) (drop-append 16 b_header (b_hash ++ b_rest) sixteen)
      ∙ take-append 256 b_hash b_rest hash_size

  part_rest : drop 272 whole ≡ b_rest
  part_rest =
      ap (λ (b : Bits). drop 272 b) (sym (append_assoc b_header b_hash b_rest))
      ∙ drop-append 272 (b_header ++ b_hash) b_rest
          (omega (arith, length-append {0} b_header b_hash))

decode_parts :
    (types : VulnerabilityTypes) (text : Text) (bits : Bits) (header : Header) (hash : Text)
    (fs : List Finding)
    → hex_to_bitstring text 0 ≡ ok bits
    → decode_header_bytes (take 16 bits) ≡ ok header
    → to_hex (take 256 (drop 16 bits)) ≡ ok hash
    → decode_vulnerabilities types (drop 272 bits) ≡ ok fs
    → decode_report types text
      ≡ ok (produce_json header.version header.audit_state header.status hash fs)
unfolding decode_report
decode_parts types text bits header hash fs h₁ h₂ h₃ h₄ = rw h₁ (rw (h₂, h₃, h₄))

-- The parts that a compressed report is put together of.
compress_parts :
    (types : VulnerabilityTypes) (report : Report) (text : Text)
    → compress_report types report ≡ ok text
    → (b₁ : Bits) × (b₂ : Bits) × (b₃ : Bits) × (encode_header_bytes report.version
          report.audit_state report.status
        ≡ ok b₁)
      × (hex_to_bitstring report.contract_hash contract_hash_size ≡ ok b₂)
      × (encode_vulnerabilities types (analyzers report) ≡ ok b₃)
      × (to_hex (b₁ ++ (b₂ ++ b₃)) ≡ ok text)
unfolding compress_report compress
compress_parts types report text h =
    let (b₁, e₁, h₁) =
      >>=-eq-ok (encode_header_bytes report.version report.audit_state report.status) _
        (rethrow-eq-ok (compress types report) text h) in
    let (b₂, e₂, h₂) = >>=-eq-ok (hex_to_bitstring report.contract_hash contract_hash_size) _ h₁ in
    let (b₃, e₃, h₃) = >>=-eq-ok (encode_vulnerabilities types (analyzers report)) _ h₂ in
    (b₁, b₂, b₃, e₁, e₂, e₃, h₃)

same_version :
    (version : Text) (audit_state : ℕ) (status : String) (bits : Bits) (v : Version)
    → (h : IsHeader version audit_state status bits) → parse_version version ≡ ok v
    → decode_header_bytes bits
      ≡ ok (record { version = format_version v; audit_state = audit_state; status = status })
same_version version audit_state status bits v h p =
    subst
      (λ v.
        decode_header_bytes bits
        ≡ ok (record { version = format_version v; audit_state = audit_state; status = status }))
      (ok-injective (sym h.parsed ∙ p)) (decode-IsHeader version audit_state status bits h)

-- Under a table of types in which each bitstring stands for its name, a report that is compressed is
-- decoded to the same version number, audit state and status, the contract hash in upper case, and
-- its distinct vulnerabilities in their order, grouped by type.
pub decode-compress_report :
    (types : VulnerabilityTypes) (report : Report) (text : Text) (v : Version)
    → AreTypes types
    → parse_version report.version ≡ ok v
    → compress_report types report ≡ ok text
    → decode_report types text
      ≡ ok (
          produce_json
            (format_version v)
            report.audit_state
            report.status
            (map to_upper report.contract_hash)
            (distinct_findings (analyzers report)))
decode-compress_report types report text v valid version h =
    let (b₁, b₂, b₃, e₁, e₂, e₃, written) = compress_parts types report text h in
    let header =
      encode_header_bytes-IsHeader report.version report.audit_state report.status b₁ e₁ in
    let l₁ = length-header report.version report.audit_state report.status b₁ header in
    let (hex, digits) = hash_bits report.contract_hash b₂ e₂ in
    let l₂ : length b₂ ≡ 256 = omega (arith, length-hex_bits report.contract_hash b₂ hex) in
    let bits = whole b₁ b₂ b₃ l₁ l₂ in
    let some_bits : 0 < length bits = omega (arith, length-append {0} b₁ (b₂ ++ b₃)) in
    decode_parts types text bits
      (record {
        version = format_version v;
        audit_state = report.audit_state;
        status = report.status;
      })
      (map to_upper report.contract_hash) (distinct_findings (analyzers report))
      (read_hex bits text written some_bits)
      (ap decode_header_bytes (part_header b₁ b₂ b₃ l₁ l₂)
        ∙ same_version report.version report.audit_state report.status b₁ v header version)
      (ap to_hex (part_hash b₁ b₂ b₃ l₁ l₂)
        ∙ to_hex-hex_bits report.contract_hash b₂ (omega arith) hex)
      (ap (decode_vulnerabilities types) (part_rest b₁ b₂ b₃ l₁ l₂)
        ∙ decode-encode_vulnerabilities types (analyzers report) b₃ valid e₃)
