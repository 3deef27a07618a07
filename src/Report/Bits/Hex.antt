-- ===== src/Report/Bits/Hex.antt =====
-- Hex strings: __to_bitstring with `is_hex`, and __to_hex. Each digit is four bits.
use qsp_protocol_node.Prelude.{
  ℕ, zero, suc, ◌+◌, ◌-◌, ◌*◌, ◌/◌, ◌%◌, ◌<◌, ◌≡◌, refl, not, ◌&&◌, Option, none, some, [], ◌∷◌,
  ◌++◌, arith, if◌then◌else◌, ltb, leb, ◌==◌, length, length-append, Result, ok, raise,
  report_formatting, value_error, ap, ◌∙◌, ◌>>=◌, >>=-eq-ok, ok-injective, append-nil, append_assoc,
}
use qsp_protocol_node.Report.Bits.Number.{is_number}
use qsp_protocol_node.Evt.Decimal.{Text}
use qsp_protocol_node.Report.Bits.{
  Bits, binary, value, from_bitstring, binary-value, from_bitstring-value,
}

-- `int(c, 16)` of one character.
unfoldable pub hex_digit : ℕ → Option ℕ
hex_digit c =
    if leb b'0' c && leb c b'9'
    then some (c - b'0')
    else if leb b'a' c && leb c b'f'
    then some (c - b'a' + 10)
    else if leb b'A' c && leb c b'F'
    then some (c - b'A' + 10)
    else none

-- The digit that the format `X` writes.
unfoldable pub hex_char : ℕ → ℕ
hex_char d = if ltb d 10 then b'0' + d else b'A' + (d - 10)

unfoldable pub hex_digit_bits : Option ℕ → Result Bits
hex_digit_bits none = raise (value_error "invalid literal for int() with base 16")
hex_digit_bits (some d) = ok (binary 4 d)

-- The loop over the characters; a character that is no hex digit is a ValueError.
unfoldable pub hex_bits : Text → Result Bits
unfolding hex_digit_bits
hex_bits [] = ok []
hex_bits (c ∷ s) = do bits ← hex_digit_bits (hex_digit c); rest ← hex_bits s; ok (bits ++ rest)

-- A text that fails has first been tried as a whole, which a text of hex digits passes: only one that
-- is a number all the same, as by a prefix 0x, comes to the loop's ValueError.
unfoldable pub checked_digits : Text → Result Bits → Result Bits
unfolding is_number
checked_digits number (ok bits) = ok bits
checked_digits number (raise e) = if is_number number then raise e else raise report_formatting

-- __to_bitstring with `is_hex`; the length 0 stands for any. The empty text is no number.
unfoldable pub hex_to_bitstring : Text → ℕ → Result Bits
unfolding hex_bits checked_digits
hex_to_bitstring [] bitstring_length = raise report_formatting
hex_to_bitstring (c ∷ s) bitstring_length =
    if not (bitstring_length == 0) && not (length (c ∷ s) * 4 == bitstring_length)
    then raise report_formatting
    else checked_digits (c ∷ s) (hex_bits (c ∷ s))

-- `n` in `width` hex digits: what the format `0{width}X` gives for `n < 16 ^ width`.
unfoldable pub hex_digits : ℕ → ℕ → Text
unfolding hex_char
hex_digits zero n = []
hex_digits (suc width) n = hex_digits width (n / 16) ++ hex_char (n % 16) ∷ []

-- __to_hex.
unfoldable pub to_hex : Bits → Result Text
unfolding hex_digits
to_hex bits =
    if not (length bits % 4 == 0)
    then raise report_formatting
    else (do number ← from_bitstring bits; ok (hex_digits ((length bits + 3) / 4) number))

-- What `upper` does to a hex digit.
unfoldable pub to_upper : ℕ → ℕ
to_upper c = if leb b'a' c && leb c b'f' then c - 32 else c

hex_digit-hex_char : (d : ℕ) → d < 16 → hex_digit (hex_char d) ≡ some d
unfolding hex_digit hex_char
hex_digit-hex_char d h = ground arith

pub hex_digit-lt : (c d : ℕ) → hex_digit c ≡ some d → d < 16
unfolding hex_digit
hex_digit-lt c d h = ground arith

pub hex_char-hex_digit : (c d : ℕ) → hex_digit c ≡ some d → hex_char d ≡ to_upper c
unfolding hex_digit hex_char to_upper
hex_char-hex_digit c d h = ground arith

-- One more digit at the end is four more bits at the end.
hex_bits-append_digit :
    (s : Text) (bits : Bits) (d : ℕ)
    → hex_bits s ≡ ok bits
    → d < 16
    → hex_bits (s ++ hex_char d ∷ []) ≡ ok (bits ++ binary 4 d)
unfolding hex_bits
hex_bits-append_digit [] bits d h lt = rw (hex_digit-hex_char d lt) (rw append-nil (ground arith))
hex_bits-append_digit (c ∷ s) bits d h lt =
    let (first, e, h₁) = >>=-eq-ok (hex_digit_bits (hex_digit c)) _ h in
    let (rest, e', h₂) = >>=-eq-ok (hex_bits s) _ h₁ in
    rw e (
      rw (hex_bits-append_digit s rest d e' lt)
        (rw (← append_assoc) (ap (λ (b : Bits). ok (b ++ binary 4 d)) (ok-injective h₂))))

-- The low four bits.
pub binary-low_digit :
    (width n : ℕ) → binary (width + 4) n ≡ binary width (n / 16) ++ binary 4 (n % 16)
unfolding binary
binary-low_digit width n =
    let w : width + 4 ≡ suc (suc (suc (suc width))) = omega arith in
    let q : n / 2 / 2 / 2 / 2 ≡ n / 16 = omega arith in
    let b₃ : n / 2 / 2 / 2 % 2 ≡ n % 16 / 2 / 2 / 2 % 2 = omega arith in
    let b₂ : n / 2 / 2 % 2 ≡ n % 16 / 2 / 2 % 2 = omega arith in
    let b₁ : n / 2 % 2 ≡ n % 16 / 2 % 2 = omega arith in
    let b₀ : n % 2 ≡ n % 16 % 2 = omega arith in rw w (rw (q, b₃, b₂, b₁, b₀) (simp append_assoc))

-- Reading what __to_hex writes: four bits to a digit.
hex_bits-hex_digits : (width n : ℕ) → hex_bits (hex_digits width n) ≡ ok (binary (width * 4) n)
unfolding hex_digits
hex_bits-hex_digits zero n = unfold hex_bits binary in refl
hex_bits-hex_digits (suc width) n =
    let w : suc width * 4 ≡ width * 4 + 4 = omega arith in
    hex_bits-append_digit (hex_digits width (n / 16)) _ (n % 16)
      (hex_bits-hex_digits width (n / 16)) (omega arith)
    ∙ rw (w, binary-low_digit)

pub length-hex_digits : (width n : ℕ) → length (hex_digits width n) ≡ width
unfolding hex_digits
length-hex_digits zero n = refl
length-hex_digits (suc width) n = omega (
  arith,
  length-append {0} (hex_digits width (n / 16)) (hex_char (n % 16) ∷ []),
  length-hex_digits width (n / 16),
)

pub checked_digits-eq-ok :
    (s : Text) (r : Result Bits) (bits : Bits) → checked_digits s r ≡ ok bits → r ≡ ok bits
unfolding checked_digits
checked_digits-eq-ok s r bits h = ground arith

pub hex_to_bitstring-any :
    (s : Text) (bits : Bits) → 0 < length s → hex_bits s ≡ ok bits → hex_to_bitstring s 0 ≡ ok bits
unfolding hex_to_bitstring checked_digits
hex_to_bitstring-any [] bits h e = absurd (omega arith)
hex_to_bitstring-any (c ∷ s) bits h e = rw e refl

pub to_hex-eq :
    (bits : Bits) (width : ℕ)
    → length bits ≡ width * 4
    → 0 < width
    → to_hex bits ≡ ok (hex_digits width (value 0 bits))
unfolding to_hex
to_hex-eq bits width h pos =
    let r : length bits % 4 ≡ 0 = omega arith in
    let q : (length bits + 3) / 4 ≡ width = omega arith in
    rw (r, q, from_bitstring-value bits (omega arith))

-- A bitstring of whole digits, written in hex, is read back as it was.
pub hex_to_bitstring-to_hex :
    (bits : Bits) (width : ℕ)
    → length bits ≡ width * 4
    → 0 < width
    → (s : Text) × (to_hex bits ≡ ok s) × (hex_to_bitstring s 0 ≡ ok bits)
hex_to_bitstring-to_hex bits width h pos = (
  hex_digits width (value 0 bits),
  to_hex-eq bits width h pos,
  hex_to_bitstring-any _ bits (omega (arith, length-hex_digits width (value 0 bits))) (
      hex_bits-hex_digits width (value 0 bits)
      ∙ ap (λ (b : Bits). ok b)
          (ap (λ w. binary w (value 0 bits)) (omega arith)
            ∙ binary-value 0 0 bits
            ∙ unfold binary in refl)),
)
