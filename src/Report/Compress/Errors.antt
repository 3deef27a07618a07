-- ===== src/Report/Compress/Errors.antt =====
-- The report of a contract that does not compile is always compressed.
use qsp_protocol_node.Prelude.{
  ℕ, ◌*◌, ◌^◌, ◌<◌, ◌≡◌, refl, none, [], ◌∷◌, ◌++◌, arith, length, length-append, ok, lt→ltb,
}
use qsp_protocol_node.Evt.Decimal.{Text}
use qsp_protocol_node.Report.Bits.{Bits, to_bitstring, binary}
use qsp_protocol_node.Report.Bits.Hex.{hex_bits, hex_to_bitstring, to_hex, hex_to_bitstring-to_hex}
use qsp_protocol_node.Report.Bits.Upper.{length-hex_bits}
use qsp_protocol_node.Report.Header.{
  encode_header_bytes, audit_state_bit, status_bit, length-header, encode_header_bytes-IsHeader,
}
use qsp_protocol_node.Report.Header.Versions.{Version, parse_version}
use qsp_protocol_node.Report.Types.{VulnerabilityTypes}
use qsp_protocol_node.Report.Json.{Report}
use qsp_protocol_node.Report.Vulnerabilities.{encode_vulnerabilities}
use qsp_protocol_node.Report.Compress.{compress, rethrow, compress_report, analyzers}

-- The numbers of a version fit into their fields.
abbrev pub Fits : Version → Type 0
Fits v = (v.major < 2 ^ 4) × (v.minor < 2 ^ 4) × (v.patch < 2 ^ 6)

to_bitstring-lt : (n width : ℕ) → n < 2 ^ width → to_bitstring n width ≡ ok (binary width n)
unfolding to_bitstring
to_bitstring-lt n width h = rw (lt→ltb n (2 ^ width) h) refl

error_header :
    (version : Text) (v : Version)
    → parse_version version ≡ ok v
    → Fits v
    → (bits : Bits) × (encode_header_bytes version 5 "error" ≡ ok bits)
unfolding encode_header_bytes audit_state_bit status_bit
error_header version v p (f₁, f₂, f₃) = (
  binary 4 v.major ++ (binary 4 v.minor ++ (binary 6 v.patch ++ (binary 1 0 ++ binary 1 0))),
  rw p (
      rw
        (
          to_bitstring-lt v.major 4 f₁,
          to_bitstring-lt v.minor 4 f₂,
          to_bitstring-lt v.patch 6 f₃,
          to_bitstring-lt 0 1 (omega arith),
        )
        refl),
)

hash_accepted :
    (hash : Text) (bits : Bits)
    → hex_bits hash ≡ ok bits
    → length hash ≡ 64
    → hex_to_bitstring hash 256 ≡ ok bits
unfolding hex_to_bitstring
hash_accepted [] bits h l = absurd (omega arith)
hash_accepted (c ∷ s) bits h l = ground arith

compress_parts-ok :
    (types : VulnerabilityTypes) (report : Report) (b₁ b₂ b₃ : Bits) (text : Text)
    → encode_header_bytes report.version report.audit_state report.status ≡ ok b₁
    → hex_to_bitstring report.contract_hash 256 ≡ ok b₂
    → encode_vulnerabilities types (analyzers report) ≡ ok b₃
    → to_hex (b₁ ++ (b₂ ++ b₃)) ≡ ok text
    → compress_report types report ≡ ok text
unfolding compress_report compress rethrow
compress_parts-ok types report b₁ b₂ b₃ text h₁ h₂ h₃ h₄ = rw h₁ (rw h₂ (rw h₃ (rw h₄ refl)))

-- A report in error, with no reports of analyzers, is compressed whenever its version fits and its
-- contract hash has 64 hex digits.
pub compress_report-error :
    (types : VulnerabilityTypes) (version hash : Text) (v : Version) (bits : Bits)
    → parse_version version ≡ ok v
    → Fits v
    → hex_bits hash ≡ ok bits
    → length hash ≡ 64
    → (text : Text) × (compress_report types (record {
      version = version;
      audit_state = 5;
      status = "error";
      contract_hash = hash;
      analyzers_reports = none;
    })
        ≡ ok text)
compress_report-error types version hash v bits p fits digits size =
    let (b₁, e₁) = error_header version v p fits in
    let l₁ =
      length-header version 5 "error" b₁ (encode_header_bytes-IsHeader version 5 "error" b₁ e₁) in
    let l₂ = length-hex_bits hash bits digits in
    let whole : length (b₁ ++ (bits ++ [])) ≡ 68 * 4 =
      omega (arith, length-append {0} b₁ (bits ++ []), length-append {0} bits []) in
    let (text, written, back) =
      hex_to_bitstring-to_hex (b₁ ++ (bits ++ [])) 68 whole (omega arith) in
    (
      text,
      compress_parts-ok types
          (record {
            version = version;
            audit_state = 5;
            status = "error";
            contract_hash = hash;
            analyzers_reports = none;
          })
          b₁ bits [] text e₁ (hash_accepted hash bits digits size)
          (unfold encode_vulnerabilities in refl) written,
    )
