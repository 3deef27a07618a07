-- ===== src/Report/Vulnerabilities/Encoding.antt =====
-- The bits of one vulnerability, and that they are read back as it.
use mathlib.Core.Path.{ap₂}
use qsp_protocol_node.Prelude.{
  ℕ, ◌-◌, ◌<◌, ◌≤◌, ◌^◌, ◌≡◌, refl, String, Bool, true, false, ◌||◌, Option, none, some, [], ◌∷◌,
  ◌++◌, arith, if◌then◌else◌, ◌==◌, ltb, ok, ◌>>=◌, >>=-eq-ok, ok-injective, Bool-cases, inl, inr,
  ap, sym, ◌∙◌, Option-cases, ◌≢◌,
}
use qsp_protocol_node.Report.Bits.{bit_value, Bits, to_bitstring, binary, to_bitstring-eq-ok}
use qsp_protocol_node.Report.Types.{VulnerabilityTypes, type_bits}
use qsp_protocol_node.Report.Json.{Instance}
use qsp_protocol_node.Report.Vulnerabilities.{
  Finding, type_bits_or_raise, end_line_or_zero, end_line_diff_bits, encode_instance,
}

-- The vulnerability that an instance stands for: a missing end line, and 0, stand for the start line.
unfoldable pub finding : String → Instance → Finding
finding name i =
    let end_line = end_line_or_zero i.end_line in
    record {
      type = name;
      start_line = i.start_line;
      end_line = if end_line == 0 then i.start_line else end_line;
    }

-- The documented layout: eight bits of the type, one for a second line, fifteen of the start line,
-- and eight of the difference if there is a second line.
pub record Encodes (types : VulnerabilityTypes) (f : Finding) (bits : Bits) : Type 0 where
  pub id : Bits
  pub id_eq : type_bits types f.type ≡ some id
  pub start_fits : f.start_line < 2 ^ 15
  pub ordered : f.start_line ≤ f.end_line
  pub end_fits : f.end_line - f.start_line < 2 ^ 8
  pub layout : bits ≡ (
      if f.start_line == f.end_line
      then id ++ (false ∷ binary 15 f.start_line)
      else id ++ (true ∷ (binary 15 f.start_line ++ binary 8 (f.end_line - f.start_line))))

type_bits-eq-ok :
    (types : VulnerabilityTypes) (type : Option String) (bits : Bits)
    → type_bits_or_raise types type ≡ ok bits
    → (name : String) × (type ≡ some name) × (type_bits types name ≡ some bits)
unfolding type_bits_or_raise
type_bits-eq-ok types none bits h = cc
type_bits-eq-ok types (some name) bits h = elim (Option-cases (type_bits types name)) [
  | inl e ↦ absurd (ground arith)
  | inr (b, e) ↦ (name, refl, ground arith)
]

end_line_diff-eq-ok :
    (start_line end_line : ℕ) (bits : Bits)
    → end_line_diff_bits start_line end_line ≡ ok bits
    → (start_line ≤ end_line)
      × (end_line - start_line < 2 ^ 8)
      × (bits ≡ binary 8 (end_line - start_line))
unfolding end_line_diff_bits
end_line_diff-eq-ok start_line end_line bits h = elim (Bool-cases (ltb end_line start_line)) [
  | inl e ↦ absurd (ground arith)
  | inr e ↦
      let (fits, q) = to_bitstring-eq-ok (end_line - start_line) 8 bits (ground arith) in
      (ground arith, fits, q)
]

to_bitstring-bit :
    (b : Bool) (n : ℕ) (bits : Bits) → to_bitstring n 1 ≡ ok bits → n ≡ bit_value b → bits ≡ b ∷ []
unfolding to_bitstring binary
to_bitstring-bit true n bits h e = ground arith
to_bitstring-bit false n bits h e = ground arith

one_line :
    (id bits : Bits) (start : ℕ)
    → (do
      b_is_end_line ← to_bitstring 0 1
      b_start_line ← to_bitstring start 15
      ok (id ++ (b_is_end_line ++ b_start_line)))
      ≡ ok bits
    → (start < 2 ^ 15) × (bits ≡ id ++ (false ∷ binary 15 start))
one_line id bits start h =
    let (b₁, e₁, h₁) = >>=-eq-ok (to_bitstring 0 1) _ h in
    let (b₂, e₂, h₂) = >>=-eq-ok (to_bitstring start 15) _ h₁ in
    let (fits, q₂) = to_bitstring-eq-ok start 15 b₂ e₂ in
    let q₁ = to_bitstring-bit false 0 b₁ e₁ refl in
    (fits, sym (ok-injective h₂) ∙ ap₂ (λ (x y : Bits). id ++ (x ++ y)) q₁ q₂)

two_lines :
    (id bits : Bits) (start end : ℕ)
    → (do
      b_is_end_line ← to_bitstring 1 1
      b_start_line ← to_bitstring start 15
      b_end_line ← end_line_diff_bits start end
      ok (id ++ (b_is_end_line ++ (b_start_line ++ b_end_line))))
      ≡ ok bits
    → (start < 2 ^ 15)
      × (start ≤ end)
      × (end - start < 2 ^ 8)
      × (bits ≡ id ++ (true ∷ (binary 15 start ++ binary 8 (end - start))))
two_lines id bits start end h =
    let (b₁, e₁, h₁) = >>=-eq-ok (to_bitstring 1 1) _ h in
    let (b₂, e₂, h₂) = >>=-eq-ok (to_bitstring start 15) _ h₁ in
    let (b₃, e₃, h₃) = >>=-eq-ok (end_line_diff_bits start end) _ h₂ in
    let (fits, q₂) = to_bitstring-eq-ok start 15 b₂ e₂ in
    let (le, diff_fits, q₃) = end_line_diff-eq-ok start end b₃ e₃ in
    let q₁ = to_bitstring-bit true 1 b₁ e₁ refl in
    (
      fits,
      le,
      diff_fits,
      sym (ok-injective h₃)
          ∙ ap₂ (λ (x y : Bits). id ++ (x ++ y)) q₁ (ap₂ (λ (x y : Bits). x ++ y) q₂ q₃),
    )

module _ {types : VulnerabilityTypes} (f : Finding) (id bits : Bits)
    (found : type_bits types f.type ≡ some id) (fits : f.start_line < 2 ^ 15) where
  Encodes-one_line :
      f.end_line ≡ f.start_line
      → bits ≡ id ++ (false ∷ binary 15 f.start_line)
      → Encodes types f bits
  Encodes-one_line e q = record {
    id = id;
    id_eq = found;
    start_fits = fits;
    ordered = omega arith;
    end_fits = omega arith;
    layout = q ∙ ground arith;
  }

  Encodes-two_lines :
      f.start_line ≤ f.end_line
      → f.start_line ≢ f.end_line
      → f.end_line - f.start_line < 2 ^ 8
      → bits ≡ id ++ (true ∷ (binary 15 f.start_line ++ binary 8 (f.end_line - f.start_line)))
      → Encodes types f bits
  Encodes-two_lines le ne diff_fits q = record {
    id = id;
    id_eq = found;
    start_fits = fits;
    ordered = le;
    end_fits = diff_fits;
    layout = q ∙ ground arith;
  }

-- The two branches of the encoder, at the vulnerability that the instance stands for.
encode_branches :
    (types : VulnerabilityTypes) (name : String) (i : Instance) (id bits : Bits)
    → type_bits types name ≡ some id
    → (if end_line_or_zero i.end_line == 0 || i.start_line == end_line_or_zero i.end_line
        then (do
          b_is_end_line ← to_bitstring 0 1
          b_start_line ← to_bitstring i.start_line 15
          ok (id ++ (b_is_end_line ++ b_start_line)))
        else (do
          b_is_end_line ← to_bitstring 1 1
          b_start_line ← to_bitstring i.start_line 15
          b_end_line ← end_line_diff_bits i.start_line (end_line_or_zero i.end_line)
          ok (id ++ (b_is_end_line ++ (b_start_line ++ b_end_line)))))
      ≡ ok bits
    → Encodes types (finding name i) bits
encode_branches types name i id bits found h =
    let start = i.start_line in
    let end = end_line_or_zero i.end_line in
    elim (Bool-cases (end == 0 || start == end)) [
      | inl e ↦
          let (fits, q) = one_line id bits start (rw e at h) in
          unfold finding in Encodes-one_line (finding name i) id bits found fits (ground arith) q
      | inr e ↦
          let (fits, le, diff_fits, q) = two_lines id bits start end (rw e at h) in
          let same : (finding name i).end_line ≡ end = unfold finding in ground arith in
          unfold finding in
          Encodes-two_lines (finding name i) id bits found fits (omega arith) (λ p. ground arith)
            (omega arith)
            (q
              ∙ ap (λ (n : ℕ). id ++ (true ∷ (binary 15 start ++ binary 8 (n - start)))) (sym same))
    ]

-- An instance that is accepted is laid out as documented.
pub encode_instance-Encodes :
    (types : VulnerabilityTypes) (type : Option String) (i : Instance) (bits : Bits)
    → encode_instance types type i ≡ ok bits
    → (name : String) × (type ≡ some name) × Encodes types (finding name i) bits
unfolding encode_instance
encode_instance-Encodes types type i bits h =
    let (id, e, h₁) = >>=-eq-ok (type_bits_or_raise types type) _ h in
    let (name, named, found) = type_bits-eq-ok types type id e in
    (name, named, encode_branches types name i id bits found h₁)
