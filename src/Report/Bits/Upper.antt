-- ===== src/Report/Bits/Upper.antt =====
-- A hex text that is read into bits and written again comes back in upper case.
use qsp_protocol_node.Prelude.{
  ℕ, suc, ◌+◌, ◌*◌, ◌/◌, ◌%◌, ◌<◌, ◌≡◌, refl, Option, none, some, [], ◌∷◌, ◌++◌, arith, map, length,
  length-append, ok, ap, sym, ◌∙◌, >>=-eq-ok, ok-injective, zero-add, append-nil, append_assoc,
}
use qsp_protocol_node.Evt.Decimal.{Text}
use qsp_protocol_node.Report.Bits.{Bits, binary, value, bit_value, length-binary, odd_bit}
use qsp_protocol_node.Report.Bits.Hex.{
  hex_digit, hex_char, hex_bits, hex_digits, hex_digit_bits, to_upper, to_hex, to_hex-eq,
  hex_digit-lt, hex_char-hex_digit,
}

value-append : (acc : ℕ) (xs ys : Bits) → value acc (xs ++ ys) ≡ value (value acc xs) ys
unfolding value
value-append acc [] ys = refl
value-append acc (b ∷ xs) ys = value-append (acc * 2 + bit_value b) xs ys

value-four_bits : (acc d : ℕ) → d < 16 → value acc (binary 4 d) ≡ acc * 16 + d
unfolding value binary
value-four_bits acc d h =
    omega (arith, odd_bit d, odd_bit (d / 2), odd_bit (d / 2 / 2), odd_bit (d / 2 / 2 / 2))

digit_of_bits :
    (o : Option ℕ) (bits : Bits)
    → hex_digit_bits o ≡ ok bits
    → (d : ℕ) × (o ≡ some d) × (bits ≡ binary 4 d)
unfolding hex_digit_bits
digit_of_bits none bits h = cc
digit_of_bits (some d) bits h = (d, refl, sym (ok-injective h))

-- What the first character of a hex text that is read contributes.
pub hex_bits-cons :
    (c : ℕ) (s : Text) (bits : Bits)
    → hex_bits (c ∷ s) ≡ ok bits
    → (d : ℕ) × (rest : Bits) × (hex_digit c ≡ some d)
      × (hex_bits s ≡ ok rest)
      × (bits ≡ binary 4 d ++ rest)
unfolding hex_bits
hex_bits-cons c s bits h =
    let (first, e, h₁) = >>=-eq-ok (hex_digit_bits (hex_digit c)) _ h in
    let (rest, e', h₂) = >>=-eq-ok (hex_bits s) _ h₁ in
    let (d, ed, eb) = digit_of_bits (hex_digit c) first e in
    (d, rest, ed, e', sym (ok-injective h₂) ∙ ap (λ (b : Bits). b ++ rest) eb)

pub length-hex_bits : (s : Text) (bits : Bits) → hex_bits s ≡ ok bits → length bits ≡ length s * 4
length-hex_bits [] bits h = unfold hex_bits in rw (sym (ok-injective h))
length-hex_bits (c ∷ s) bits h =
    let (d, rest, ed, er, eb) = hex_bits-cons c s bits h in
    omega (
      arith,
      ap length eb,
      length-append {0} (binary 4 d) rest,
      length-binary 4 d,
      length-hex_bits s rest er,
    )

hex_digits-low :
    (width acc d : ℕ)
    → d < 16
    → hex_digits (suc width) (acc * 16 + d) ≡ hex_digits width acc ++ hex_char d ∷ []
unfolding hex_digits
hex_digits-low width acc d h =
    let q : (acc * 16 + d) / 16 ≡ acc = omega arith in
    let r : (acc * 16 + d) % 16 ≡ d = omega arith in rw (q, r)

hex_digits-value :
    (width acc : ℕ) (s : Text) (bits : Bits)
    → hex_bits s ≡ ok bits
    → hex_digits (length s + width) (value acc bits) ≡ hex_digits width acc ++ map to_upper s
hex_digits-value width acc [] bits h =
    let e : bits ≡ [] = unfold hex_bits in sym (ok-injective h) in
    rw e (unfold value in rw (zero-add, append-nil))
hex_digits-value width acc (c ∷ s) bits h =
    let (d, rest, ed, er, eb) = hex_bits-cons c s bits h in
    let lt = hex_digit-lt c d ed in
    let w : length (c ∷ s) + width ≡ length s + suc width = omega arith in
    rw (w, eb, value-append acc (binary 4 d) rest, value-four_bits acc d lt)
      (hex_digits-value (suc width) (acc * 16 + d) s rest er
        ∙ rw (hex_digits-low width acc d lt, hex_char-hex_digit c d ed, append_assoc))

-- The bits of a hex text, written in hex, are the text in upper case.
pub to_hex-hex_bits :
    (s : Text) (bits : Bits)
    → 0 < length s
    → hex_bits s ≡ ok bits
    → to_hex bits ≡ ok (map to_upper s)
to_hex-hex_bits s bits pos h =
    to_hex-eq bits (length s) (length-hex_bits s bits h) pos
    ∙ ap (λ (t : Text). ok t)
        (ap (λ w. hex_digits w (value 0 bits)) (omega arith)
          ∙ hex_digits-value 0 0 s bits h
          ∙ unfold hex_digits in refl)
