-- ===== src/Report/Vulnerabilities/RoundTrip.antt =====
-- What the encoder writes, the decoder reads.
use qsp_protocol_node.Prelude.{
  ℕ, ◌+◌, ◌-◌, ◌<◌, ◌^◌, ◌≡◌, refl, String, Bool, true, false, some, List, ◌∷◌, ◌++◌, arith, ◌==◌,
  length, take, drop, Result, ok, Bool-cases, inl, inr, ap, sym, ◌∙◌, take-append, drop-append,
  drop-drop, length-append, append_assoc, ==_iff,
}
use qsp_protocol_node.Report.Bits.{
  Bits, from_bitstring, binary, length-binary, from_bitstring-binary,
}
use qsp_protocol_node.Report.Header.{char_at}
use qsp_protocol_node.Report.Types.{
  VulnerabilityTypes, type_bits, bits_type, initialize_vulnerability_types, bits_type-type_bits,
}
use qsp_protocol_node.Report.Vulnerabilities.{Finding, type_or_key_error, decode_vulnerability}
use qsp_protocol_node.Report.Vulnerabilities.Encoding.{Encodes}

-- The two dictionaries of the encoder fit together.
abbrev pub AreTypes : VulnerabilityTypes → Type 0
AreTypes types =
    (name : String) (bits : Bits)
    → type_bits types name ≡ some bits
    → (bits_type types bits ≡ some name) × (length bits ≡ 8)

pub initialize-AreTypes :
    (names : List String) (types : VulnerabilityTypes)
    → initialize_vulnerability_types names ≡ ok types
    → AreTypes types
unfolding initialize_vulnerability_types
initialize-AreTypes names types h name bits t = bits_type-type_bits names 0 types name bits h t

decode_one_line :
    (types : VulnerabilityTypes) (bs : Bits) (type : String) (start : ℕ)
    → type_or_key_error types (take 8 bs) ≡ ok type
    → char_at 0 (take 16 (drop 8 bs)) ≡ ok false
    → from_bitstring (drop 1 (take 16 (drop 8 bs))) ≡ ok start
    → decode_vulnerability types bs
      ≡ ok (record { type = type; start_line = start; end_line = start }, drop 24 bs)
unfolding decode_vulnerability
decode_one_line types bs type start h₁ h₂ h₃ = ground arith

decode_two_lines :
    (types : VulnerabilityTypes) (bs : Bits) (type : String) (start diff : ℕ)
    → type_or_key_error types (take 8 bs) ≡ ok type
    → char_at 0 (take 16 (drop 8 bs)) ≡ ok true
    → from_bitstring (drop 1 (take 16 (drop 8 bs))) ≡ ok start
    → from_bitstring (take 8 (drop 24 bs)) ≡ ok diff
    → decode_vulnerability types bs
      ≡ ok (record { type = type; start_line = start; end_line = start + diff }, drop 32 bs)
unfolding decode_vulnerability
decode_two_lines types bs type start diff h₁ h₂ h₃ h₄ = ground arith

type_or_key_error-some :
    (types : VulnerabilityTypes) (bits : Bits) (name : String)
    → bits_type types bits ≡ some name
    → type_or_key_error types bits ≡ ok name
unfolding type_or_key_error
type_or_key_error-some types bits name h = ground arith

-- The slices of a code: eight bits, then sixteen that begin with the flag, then the rest.
module _ (id start_bits tail : Bits) (flag : Bool) (eight : length id ≡ 8)
    (fifteen : length start_bits ≡ 15) where
  abbrev coded : Bits
  coded = id ++ ((flag ∷ start_bits) ++ tail)

  slice_id : take 8 coded ≡ id
  slice_id = take-append 8 id ((flag ∷ start_bits) ++ tail) eight

  slice_line : take 16 (drop 8 coded) ≡ flag ∷ start_bits
  slice_line =
      ap (λ (b : Bits). take 16 b) (drop-append 8 id ((flag ∷ start_bits) ++ tail) eight)
      ∙ take-append 16 (flag ∷ start_bits) tail (omega arith)

  slice_tail : drop 24 coded ≡ tail
  slice_tail =
      ap (λ (b : Bits). drop 24 b) (sym (append_assoc id (flag ∷ start_bits) tail))
      ∙ drop-append 24 (id ++ (flag ∷ start_bits)) tail
          (omega (arith, length-append {0} id (flag ∷ start_bits)))

  flag_read : char_at 0 (take 16 (drop 8 coded)) ≡ ok flag
  flag_read = ap (char_at 0) slice_line ∙ unfold char_at in refl

  start_read :
      (n : ℕ)
      → from_bitstring start_bits ≡ ok n
      → from_bitstring (drop 1 (take 16 (drop 8 coded))) ≡ ok n
  start_read n h = ap (λ (b : Bits). from_bitstring (drop 1 b)) slice_line ∙ h

decode_one_code :
    (types : VulnerabilityTypes) (id rest : Bits) (type : String) (start : ℕ)
    → bits_type types id ≡ some type
    → length id ≡ 8
    → start < 2 ^ 15
    → decode_vulnerability types ((id ++ (false ∷ binary 15 start)) ++ rest)
      ≡ ok (record { type = type; start_line = start; end_line = start }, rest)
decode_one_code types id rest type start known eight fits =
    let s = binary 15 start in
    let l = length-binary 15 start in
    let c = coded id s rest false eight l in
    ap (decode_vulnerability types) (append_assoc id (false ∷ s) rest)
    ∙ decode_one_line types c type start
        (ap (type_or_key_error types) (slice_id id s rest false eight l)
          ∙ type_or_key_error-some types id type known)
        (flag_read id s rest false eight l)
        (start_read id s rest false eight l start
          (from_bitstring-binary 15 start (omega arith) fits))
    ∙ ap (λ (b : Bits). returned type start start b) (slice_tail id s rest false eight l)
  where
    returned : String → ℕ → ℕ → Bits → Result (Finding × Bits)
    returned type start end rest =
        ok (record { type = type; start_line = start; end_line = end }, rest)

decode_two_code :
    (types : VulnerabilityTypes) (id rest : Bits) (type : String) (start diff : ℕ)
    → bits_type types id ≡ some type
    → length id ≡ 8
    → start < 2 ^ 15
    → diff < 2 ^ 8
    → decode_vulnerability types ((id ++ (true ∷ (binary 15 start ++ binary 8 diff))) ++ rest)
      ≡ ok (record { type = type; start_line = start; end_line = start + diff }, rest)
decode_two_code types id rest type start diff known eight fits diff_fits =
    let s = binary 15 start in
    let d = binary 8 diff in
    let l = length-binary 15 start in
    let k = length-binary 8 diff in
    let c = coded id s (d ++ rest) true eight l in
    let tail = slice_tail id s (d ++ rest) true eight l in
    ap (decode_vulnerability types) (
      append_assoc id (true ∷ (s ++ d)) rest
      ∙ ap (λ (b : Bits). id ++ (true ∷ b)) (append_assoc s d rest))
    ∙ decode_two_lines types c type start diff
        (ap (type_or_key_error types) (slice_id id s (d ++ rest) true eight l)
          ∙ type_or_key_error-some types id type known)
        (flag_read id s (d ++ rest) true eight l)
        (start_read id s (d ++ rest) true eight l start
          (from_bitstring-binary 15 start (omega arith) fits))
        (ap (λ (b : Bits). from_bitstring (take 8 b)) tail
          ∙ ap from_bitstring (take-append 8 d rest k)
          ∙ from_bitstring-binary 8 diff (omega arith) diff_fits)
    ∙ ap (λ (b : Bits). returned type start (start + diff) b)
        (drop_rest c tail ∙ drop-append 8 d rest k)
  where
    returned : String → ℕ → ℕ → Bits → Result (Finding × Bits)
    returned type start end rest =
        ok (record { type = type; start_line = start; end_line = end }, rest)

    drop_rest : (c : Bits) {t : Bits} → drop 24 c ≡ t → drop 32 c ≡ drop 8 t
    drop_rest c e = drop-drop 24 8 c ∙ ap (λ (b : Bits). drop 8 b) e

same_finding :
    {f : Finding} {rest : Bits} (start end : ℕ)
    → f.start_line ≡ start
    → f.end_line ≡ end
    → ◌≡◌ {A = Result (Finding × Bits)}
        (ok (record { type = f.type; start_line = start; end_line = end }, rest))
        (ok (f, rest))
same_finding start end p q = ground arith

-- The code of a vulnerability is read back as the vulnerability, whatever follows it.
pub decode-Encodes :
    (types : VulnerabilityTypes) (f : Finding) (bits rest : Bits)
    → AreTypes types
    → Encodes types f bits
    → decode_vulnerability types (bits ++ rest) ≡ ok (f, rest)
decode-Encodes types f bits rest valid e =
    let (known, eight) = valid f.type e.id e.id_eq in
    elim (Bool-cases (f.start_line == f.end_line)) [
      | inl one ↦
          ap (λ (b : Bits). decode_vulnerability types (b ++ rest)) (e.layout ∙ rw one)
          ∙ decode_one_code types e.id rest f.type f.start_line known eight e.start_fits
          ∙ same_finding f.start_line f.start_line refl
              (sym ((==_iff f.start_line f.end_line).0 one))
      | inr two ↦
          let le = e.ordered in
          ap (λ (b : Bits). decode_vulnerability types (b ++ rest)) (e.layout ∙ rw two)
          ∙ decode_two_code types e.id rest f.type f.start_line (f.end_line - f.start_line) known
              eight e.start_fits e.end_fits
          ∙ same_finding f.start_line (f.start_line + (f.end_line - f.start_line)) refl
              (omega arith)
    ]

-- A code is not empty.
pub length-Encodes :
    (types : VulnerabilityTypes) (f : Finding) (bits : Bits)
    → Encodes types f bits
    → 0 < length bits
length-Encodes types f bits e = elim (Bool-cases (f.start_line == f.end_line)) [
  | inl one ↦
      let q : bits ≡ e.id ++ (false ∷ binary 15 f.start_line) = e.layout ∙ rw one in
      omega (arith, ap length q, length-append {0} e.id (false ∷ binary 15 f.start_line))
  | inr two ↦
      let tail = true ∷ (binary 15 f.start_line ++ binary 8 (f.end_line - f.start_line)) in
      let q : bits ≡ e.id ++ tail = e.layout ∙ rw two in
      omega (arith, ap length q, length-append {0} e.id tail)
]
