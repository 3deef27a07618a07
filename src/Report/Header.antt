-- ===== src/Report/Header.antt =====
-- ReportEncoder.__encode_header_bytes and __decode_header_bytes: version, audit state and status.
pub mod Versions
use qsp_protocol_node.Prelude.{
  ℕ, zero, suc, ◌+◌, ◌<◌, ◌^◌, ◌≡◌, refl, String, Bool, true, false, Option, none, some, List, [],
  ◌∷◌, ◌++◌, arith, if◌then◌else◌, ◌==◌, str_eq, eq_iff, length, length-append, take, drop,
  take-append, drop-append, Result, ok, raise, report_formatting, other, ◌>>=◌, >>=-eq-ok,
  ok-injective, ap, sym, ◌∙◌, Bool-cases, inl, inr, append_assoc,
}
use qsp_protocol_node.Evt.Decimal.{Text}
use qsp_protocol_node.Report.Bits.{
  Bits, to_bitstring, from_bitstring, binary, length-binary, to_bitstring-eq-ok,
  from_bitstring-binary,
}
use qsp_protocol_node.Report.Header.Versions.{Version, parse_version, format_version}

abbrev pub audit_state_success : ℕ
audit_state_success = 4

abbrev pub audit_state_error : ℕ
audit_state_error = 5

abbrev pub audit_status_success : String
audit_status_success = "success"

abbrev pub audit_status_error : String
audit_status_error = "error"

unfoldable pub audit_state_bit : ℕ → Result Bits
audit_state_bit audit_state =
    if audit_state == audit_state_success
    then to_bitstring 1 1
    else if audit_state == audit_state_error
    then to_bitstring 0 1
    else raise report_formatting

unfoldable pub status_bit : String → Result Bits
status_bit status =
    if str_eq status audit_status_success
    then to_bitstring 1 1
    else if str_eq status audit_status_error
    then to_bitstring 0 1
    else raise report_formatting

unfoldable pub encode_header_bytes : Text → ℕ → String → Result Bits
unfolding audit_state_bit status_bit
encode_header_bytes version audit_state status = do
  v ← parse_version version
  b_major_version ← to_bitstring v.major 4
  b_minor_version ← to_bitstring v.minor 4
  b_patch_version ← to_bitstring v.patch 6
  b_audit_state ← audit_state_bit audit_state
  b_status ← status_bit status
  ok (b_major_version ++ (b_minor_version ++ (b_patch_version ++ (b_audit_state ++ b_status))))

-- A character of a bitstring, by its index; past the end is an IndexError.
unfoldable pub char_at : ℕ → Bits → Result Bool
char_at i [] = raise (other "IndexError")
char_at zero (b ∷ bits) = ok b
char_at (suc i) (b ∷ bits) = char_at i bits

pub record Header : Type 0 where
  pub version : Text
  pub audit_state : ℕ
  pub status : String

unfoldable pub decode_header_bytes : Bits → Result Header
decode_header_bytes b_header = do
  major ← from_bitstring (take 4 b_header)
  minor ← from_bitstring (take 4 (drop 4 b_header))
  patch ← from_bitstring (take 6 (drop 8 b_header))
  audit_state ← char_at 14 b_header
  status ← char_at 15 b_header
  ok (record {
    version = format_version (record { major = major; minor = minor; patch = patch });
    audit_state = if audit_state then audit_state_success else audit_state_error;
    status = if status then audit_status_success else audit_status_error;
  })

-- What an accepted header is made of.
pub record IsHeader (version : Text) (audit_state : ℕ) (status : String) (bits : Bits)
    : Type 0 where
  pub v : Version
  pub parsed : parse_version version ≡ ok v
  pub success : Bool
  pub succeeded : Bool
  pub state_eq : audit_state ≡ (if success then audit_state_success else audit_state_error)
  pub status_eq : status ≡ (if succeeded then audit_status_success else audit_status_error)
  pub major_fits : v.major < 2 ^ 4
  pub minor_fits : v.minor < 2 ^ 4
  pub patch_fits : v.patch < 2 ^ 6
  pub bits_eq :
      bits
      ≡ binary 4 v.major ++ (binary 4 v.minor ++ (binary 6 v.patch ++ (success ∷ succeeded ∷ [])))

audit_state_bit-eq-ok :
    (audit_state : ℕ) (bits : Bits)
    → audit_state_bit audit_state ≡ ok bits
    → (b : Bool) × (audit_state ≡ (if b then audit_state_success else audit_state_error))
      × (bits ≡ b ∷ [])
unfolding audit_state_bit to_bitstring binary
audit_state_bit-eq-ok audit_state bits h = elim (Bool-cases (audit_state == audit_state_success)) [
  | inl e ↦ (true, ground arith, ground arith)
  | inr e ↦ (false, ground arith, ground arith)
]

status_bit-eq-ok :
    (status : String) (bits : Bits)
    → status_bit status ≡ ok bits
    → (b : Bool) × (status ≡ (if b then audit_status_success else audit_status_error))
      × (bits ≡ b ∷ [])
unfolding status_bit to_bitstring binary
status_bit-eq-ok status bits h = elim (Bool-cases (str_eq status audit_status_success)) [
  | inl e ↦ (true, (eq_iff status audit_status_success).0 e, ground arith)
  | inr e ↦ (false, ground (arith, eq_iff status audit_status_error), ground arith)
]

append_five :
    {a b c d e a' b' c' : Bits} {s t : Bool}
    → a ≡ a'
    → b ≡ b'
    → c ≡ c'
    → d ≡ s ∷ []
    → e ≡ t ∷ []
    → a ++ (b ++ (c ++ (d ++ e))) ≡ a' ++ (b' ++ (c' ++ (s ∷ t ∷ [])))
append_five p q r u v = rw (p, q, r, u, v)

pub encode_header_bytes-IsHeader :
    (version : Text) (audit_state : ℕ) (status : String) (bits : Bits)
    → encode_header_bytes version audit_state status ≡ ok bits
    → IsHeader version audit_state status bits
unfolding encode_header_bytes
encode_header_bytes-IsHeader version audit_state status bits h =
    let (v, p, h₁) = >>=-eq-ok (parse_version version) _ h in
    let (b₁, e₁, h₂) = >>=-eq-ok (to_bitstring v.major 4) _ h₁ in
    let (b₂, e₂, h₃) = >>=-eq-ok (to_bitstring v.minor 4) _ h₂ in
    let (b₃, e₃, h₄) = >>=-eq-ok (to_bitstring v.patch 6) _ h₃ in
    let (b₄, e₄, h₅) = >>=-eq-ok (audit_state_bit audit_state) _ h₄ in
    let (b₅, e₅, h₆) = >>=-eq-ok (status_bit status) _ h₅ in
    let (f₁, q₁) = to_bitstring-eq-ok v.major 4 b₁ e₁ in
    let (f₂, q₂) = to_bitstring-eq-ok v.minor 4 b₂ e₂ in
    let (f₃, q₃) = to_bitstring-eq-ok v.patch 6 b₃ e₃ in
    let (success, s₄, q₄) = audit_state_bit-eq-ok audit_state b₄ e₄ in
    let (succeeded, s₅, q₅) = status_bit-eq-ok status b₅ e₅ in
    record {
      v = v;
      parsed = p;
      success = success;
      succeeded = succeeded;
      state_eq = s₄;
      status_eq = s₅;
      major_fits = f₁;
      minor_fits = f₂;
      patch_fits = f₃;
      bits_eq = sym (ok-injective h₆) ∙ append_five q₁ q₂ q₃ q₄ q₅;
    }

-- A header takes sixteen bits.
pub length-header :
    (version : Text) (audit_state : ℕ) (status : String) (bits : Bits)
    → IsHeader version audit_state status bits
    → length bits ≡ 16
unfolding binary
length-header version audit_state status bits h = omega (arith, ap length h.bits_eq)

-- The slices of the fields of a header.
module _ (b₁ b₂ b₃ tail : Bits) (h₁ : length b₁ ≡ 4) (h₂ : length b₂ ≡ 4) (h₃ : length b₃ ≡ 6) where
  abbrev packed : Bits
  packed = b₁ ++ (b₂ ++ (b₃ ++ tail))

  slice_minor : take 4 (drop 4 packed) ≡ b₂
  slice_minor = rw (drop-append 4 b₁ (b₂ ++ (b₃ ++ tail)) h₁) (take-append 4 b₂ (b₃ ++ tail) h₂)

  drop_versions : drop 8 packed ≡ b₃ ++ tail
  drop_versions =
      ap (λ (t : Bits). drop 8 t) (sym (append_assoc b₁ b₂ (b₃ ++ tail)))
      ∙ drop-append 8 (b₁ ++ b₂) (b₃ ++ tail) (omega (arith, length-append {0} b₁ b₂))

  slice_patch : take 6 (drop 8 packed) ≡ b₃
  slice_patch = rw drop_versions (take-append 6 b₃ tail h₃)

-- Decoding goes field by field.
decode_fields :
    (bits : Bits) (v : Version) (s t : Bool)
    → from_bitstring (take 4 bits) ≡ ok v.major
    → from_bitstring (take 4 (drop 4 bits)) ≡ ok v.minor
    → from_bitstring (take 6 (drop 8 bits)) ≡ ok v.patch
    → char_at 14 bits ≡ ok s
    → char_at 15 bits ≡ ok t
    → decode_header_bytes bits
      ≡ ok (record {
        version = format_version v;
        audit_state = if s then audit_state_success else audit_state_error;
        status = if t then audit_status_success else audit_status_error;
      })
unfolding decode_header_bytes
decode_fields bits v s t h₁ h₂ h₃ h₄ h₅ = rw (h₁, h₂, h₃, h₄, h₅)

decode_packed :
    (v : Version) (s t : Bool)
    → v.major < 2 ^ 4
    → v.minor < 2 ^ 4
    → v.patch < 2 ^ 6
    → decode_header_bytes
        (binary 4 v.major ++ (binary 4 v.minor ++ (binary 6 v.patch ++ (s ∷ t ∷ []))))
      ≡ ok (record {
        version = format_version v;
        audit_state = if s then audit_state_success else audit_state_error;
        status = if t then audit_status_success else audit_status_error;
      })
decode_packed v s t f₁ f₂ f₃ =
    let b₁ = binary 4 v.major in
    let b₂ = binary 4 v.minor in
    let b₃ = binary 6 v.patch in
    let l₁ = length-binary 4 v.major in
    let l₂ = length-binary 4 v.minor in
    let l₃ = length-binary 6 v.patch in
    decode_fields (packed b₁ b₂ b₃ (s ∷ t ∷ []) l₁ l₂ l₃) v s t
      (ap from_bitstring (take-append 4 b₁ (b₂ ++ (b₃ ++ (s ∷ t ∷ []))) l₁)
        ∙ from_bitstring-binary 4 v.major (omega arith) f₁)
      (ap from_bitstring (slice_minor b₁ b₂ b₃ (s ∷ t ∷ []) l₁ l₂ l₃)
        ∙ from_bitstring-binary 4 v.minor (omega arith) f₂)
      (ap from_bitstring (slice_patch b₁ b₂ b₃ (s ∷ t ∷ []) l₁ l₂ l₃)
        ∙ from_bitstring-binary 6 v.patch (omega arith) f₃)
      (unfold binary char_at in refl) (unfold binary char_at in refl)

same_header :
    {version : Text} {a b : ℕ} {s t : String}
    → a ≡ b
    → s ≡ t
    → ◌≡◌ {A = Result Header}
        (ok (record { version = version; audit_state = a; status = s }))
        (ok (record { version = version; audit_state = b; status = t }))
same_header p q = cc

-- The layout of a header is read back.
pub decode-IsHeader :
    (version : Text) (audit_state : ℕ) (status : String) (bits : Bits)
    → (h : IsHeader version audit_state status bits)
    → decode_header_bytes bits
      ≡ ok (record { version = format_version h.v; audit_state = audit_state; status = status })
decode-IsHeader version audit_state status bits h =
    ap decode_header_bytes h.bits_eq
    ∙ decode_packed h.v h.success h.succeeded h.major_fits h.minor_fits h.patch_fits
    ∙ same_header (sym h.state_eq) (sym h.status_eq)

-- A header that encode_header_bytes makes has sixteen bits, and decode_header_bytes reads it back: the
-- same audit state and status, and the version in the form that `".".join` gives its three numbers.
pub decode-encode_header :
    (version : Text) (audit_state : ℕ) (status : String) (bits : Bits)
    → encode_header_bytes version audit_state status ≡ ok bits
    → (v : Version) × (parse_version version ≡ ok v)
      × (length bits ≡ 16)
      × (decode_header_bytes bits
          ≡ ok (record { version = format_version v; audit_state = audit_state; status = status }))
decode-encode_header version audit_state status bits e =
    let h = encode_header_bytes-IsHeader version audit_state status bits e in
    (
      h.v,
      h.parsed,
      length-header version audit_state status bits h,
      decode-IsHeader version audit_state status bits h,
    )
