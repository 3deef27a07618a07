-- ===== src/Report/Vulnerabilities.antt =====
-- ReportEncoder.__encode_vulnerabilities and __decode_vulnerabilities.
pub mod Encoding
pub mod RoundTrip
pub mod Lists
use qsp_protocol_node.Prelude.{
  ℕ, zero, suc, ◌+◌, ◌-◌, ◌≡◌, String, Bool, true, false, ◌&&◌, ◌||◌, Option, none, some, List, [],
  ◌∷◌, ◌++◌, if◌then◌else◌, ◌==◌, ltb, str_eq, length, take, drop, Result, ok, raise,
  report_formatting, value_error, other, key_error, ◌>>=◌,
}
use qsp_protocol_node.Report.Bits.{Bits, to_bitstring, from_bitstring}
use qsp_protocol_node.Report.Header.{char_at}
use qsp_protocol_node.Report.Types.{VulnerabilityTypes, type_bits, bits_type, bits_eq}
use qsp_protocol_node.Report.Json.{Instance, Vulnerability, AnalyzerReport}

-- A tuple (type, start line, end line) that the decoder gives for each vulnerability.
pub record Finding : Type 0 where
  pub type : String
  pub start_line : ℕ
  pub end_line : ℕ

-- `vulnerability_types.get(type_name, None)`, and the exception if it gives nothing.
unfoldable pub type_bits_or_raise : VulnerabilityTypes → Option String → Result Bits
type_bits_or_raise types none = raise report_formatting
type_bits_or_raise types (some name) = elim (type_bits types name) [
  | none ↦ raise report_formatting
  | some bits ↦ ok bits
]

-- `instance.get("end_line", 0)`.
abbrev pub end_line_or_zero : Option ℕ → ℕ
end_line_or_zero none = 0
end_line_or_zero (some n) = n

-- __to_bitstring of `end_line - start_line`: the logarithm has no value if that is negative.
unfoldable pub end_line_diff_bits : ℕ → ℕ → Result Bits
end_line_diff_bits start_line end_line =
    if ltb end_line start_line
    then raise (value_error "math domain error")
    else to_bitstring (end_line - start_line) 8

-- One round of the innermost loop.
unfoldable pub encode_instance : VulnerabilityTypes → Option String → Instance → Result Bits
unfolding type_bits_or_raise end_line_diff_bits
encode_instance types type instance_ =
    let start_line = instance_.start_line in
    let end_line = end_line_or_zero instance_.end_line in
    do
      b_vulnerability_id ← type_bits_or_raise types type
      if end_line == 0 || start_line == end_line
          then (do
            b_is_end_line ← to_bitstring 0 1
            b_start_line ← to_bitstring start_line 15
            ok (b_vulnerability_id ++ (b_is_end_line ++ b_start_line)))
          else (do
            b_is_end_line ← to_bitstring 1 1
            b_start_line ← to_bitstring start_line 15
            b_end_line ← end_line_diff_bits start_line end_line
            ok (b_vulnerability_id ++ (b_is_end_line ++ (b_start_line ++ b_end_line))))

unfoldable pub encode_instances :
    VulnerabilityTypes → Option String → List Instance → Result (List Bits)
encode_instances types type [] = ok []
encode_instances types type (i ∷ instances) = do
  bits ← encode_instance types type i
  rest ← encode_instances types type instances
  ok (bits ∷ rest)

unfoldable pub encode_potential : VulnerabilityTypes → List Vulnerability → Result (List Bits)
encode_potential types [] = ok []
encode_potential types (v ∷ vulnerabilities) = do
  bits ← encode_instances types v.type v.instances
  rest ← encode_potential types vulnerabilities
  ok (bits ++ rest)

-- `analyzer_report.get("potential_vulnerabilities", [])`.
abbrev pub potential : AnalyzerReport → List Vulnerability
potential report = elim report.potential_vulnerabilities [ none ↦ [] | some vs ↦ vs ]

unfoldable pub encode_reports : VulnerabilityTypes → List AnalyzerReport → Result (List Bits)
encode_reports types [] = ok []
encode_reports types (report ∷ reports) = do
  bits ← encode_potential types (potential report)
  rest ← encode_reports types reports
  ok (bits ++ rest)

module _ {A : Type 0} (eq : A → A → Bool) where
  unfoldable pub member : A → List A → Bool
  member a [] = false
  member a (b ∷ bs) = eq a b || member a bs

  -- `OrderedDict.fromkeys`: the first of equal keys, in their order; `seen` are the keys so far.
  unfoldable pub from_keys : List A → List A → List A
  unfolding member
  from_keys seen [] = []
  from_keys seen (a ∷ as_) =
      let old = from_keys seen as_ in
      let new = from_keys (a ∷ seen) as_ in if member a seen then old else a ∷ new

-- `"".join`.
unfoldable pub join : List Bits → Bits
join [] = []
join (bits ∷ rest) = bits ++ join rest

unfoldable pub encode_vulnerabilities : VulnerabilityTypes → List AnalyzerReport → Result Bits
unfolding encode_reports from_keys join
encode_vulnerabilities types analyzers_reports = do
  encoded ← encode_reports types analyzers_reports
  ok (join (from_keys bits_eq [] encoded))

-- `self.__vulnerability_types_inverted[bits]`.
unfoldable pub type_or_key_error : VulnerabilityTypes → Bits → Result String
type_or_key_error types bits = elim (bits_type types bits) [
  | none ↦ raise key_error
  | some name ↦ ok name
]

-- One round of the loop: the vulnerability, and the bits that are left.
unfoldable pub decode_vulnerability : VulnerabilityTypes → Bits → Result (Finding × Bits)
unfolding type_or_key_error
decode_vulnerability types b_vulnerabilities =
    let start_line_bits = take 16 (drop 8 b_vulnerabilities) in
    do
      type ← type_or_key_error types (take 8 b_vulnerabilities)
      is_end_line ← char_at 0 start_line_bits
      start_line ← from_bitstring (drop 1 start_line_bits)
      if is_end_line
          then (do
            diff ← from_bitstring (take 8 (drop 24 b_vulnerabilities))
            ok (
              record { type = type; start_line = start_line; end_line = start_line + diff },
              drop 32 b_vulnerabilities,
            ))
          else ok (
            record { type = type; start_line = start_line; end_line = start_line },
            drop 24 b_vulnerabilities,
          )

-- `while b_vulnerabilities`: each round takes bits away, so the number of bits is fuel enough.
unfoldable pub decode_loop : VulnerabilityTypes → ℕ → Bits → Result (List Finding)
decode_loop types fuel [] = ok []
decode_loop types zero (b ∷ bits) = raise (other "out of fuel")
decode_loop types (suc fuel) (b ∷ bits) = do
  first ← decode_vulnerability types (b ∷ bits)
  rest ← decode_loop types fuel first.1
  ok (first.0 ∷ rest)

unfoldable pub decode_vulnerabilities : VulnerabilityTypes → Bits → Result (List Finding)
unfolding decode_loop
decode_vulnerabilities types b_vulnerabilities =
    decode_loop types (length b_vulnerabilities) b_vulnerabilities
