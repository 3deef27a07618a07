-- ===== src/Report/Bits.antt =====
-- ReportEncoder.__to_bitstring, __from_bitstring and __to_hex. A bitstring is a list of its
-- characters, `true` for '1'; a hex string is a list of code points.
pub mod Number
pub mod Hex
pub mod Upper
use qsp_protocol_node.Prelude.{
  ℕ, zero, suc, ◌+◌, ◌-◌, ◌*◌, ◌/◌, ◌%◌, ◌^◌, ◌<◌, ◌≡◌, refl, Bool, true, false, List, [], ◌∷◌,
  ◌++◌, arith, if◌then◌else◌, ltb, ◌==◌, length, length-append, Result, ok, raise,
  report_formatting, value_error, ap, sym, ◌∙◌, pow-suc, ltb→lt, zero-add, append-nil, append_assoc,
}

abbrev pub Bits : Type 0
Bits = List Bool

abbrev pub bit_value : Bool → ℕ
bit_value true = 1
bit_value false = 0

-- `n` in binary, in `width` characters: what the format `0{width}b` gives for `n < 2 ^ width`.
unfoldable pub binary : ℕ → ℕ → Bits
binary zero n = []
binary (suc width) n = binary width (n / 2) ++ (n % 2 == 1) ∷ []

-- __to_bitstring of a number; `math.log2(n + 1) > width` exactly when `n` is at least `2 ^ width`.
unfoldable pub to_bitstring : ℕ → ℕ → Result Bits
unfolding binary
to_bitstring n width = if ltb n (2 ^ width) then ok (binary width n) else raise report_formatting

unfoldable pub value : ℕ → Bits → ℕ
value acc [] = acc
value acc (b ∷ bits) = value (acc * 2 + bit_value b) bits

-- __from_bitstring: `int(bitstring, 2)`, which has no value for the empty text.
unfoldable pub from_bitstring : Bits → Result ℕ
unfolding value
from_bitstring [] = raise (value_error "invalid literal for int() with base 2")
from_bitstring (b ∷ bits) = ok (value 0 (b ∷ bits))

pub length-binary : (width n : ℕ) → length (binary width n) ≡ width
unfolding binary
length-binary zero n = refl
length-binary (suc width) n = omega (
  arith,
  length-append {0} (binary width (n / 2)) ((n % 2 == 1) ∷ []),
  length-binary width (n / 2),
)

pub value-append_bit :
    (acc : ℕ) (bits : Bits) (b : Bool)
    → value acc (bits ++ b ∷ []) ≡ value acc bits * 2 + bit_value b
unfolding value
value-append_bit acc [] b = refl
value-append_bit acc (c ∷ bits) b = value-append_bit (acc * 2 + bit_value c) bits b

low_half : (acc b : ℕ) → b < 2 → (acc * 2 + b) / 2 ≡ acc
low_half acc b h = omega arith

low_odd : (acc : ℕ) → ((acc * 2 + 1) % 2 == 1) ≡ true
low_odd acc = ground arith

low_even : (acc : ℕ) → ((acc * 2 + 0) % 2 == 1) ≡ false
low_even acc = ground arith

pub odd_bit : (n : ℕ) → bit_value (n % 2 == 1) ≡ n % 2
odd_bit n = ground arith

-- A number that fits is read back.
pub value-binary : (width n : ℕ) → n < 2 ^ width → value 0 (binary width n) ≡ n
unfolding binary value
value-binary zero n h = omega arith
value-binary (suc width) n h =
    value-append_bit 0 (binary width (n / 2)) (n % 2 == 1)
    ∙ omega (arith, odd_bit n, value-binary width (n / 2) (omega (arith, pow-suc 2 width)))

pub from_bitstring-value : (bits : Bits) → 0 < length bits → from_bitstring bits ≡ ok (value 0 bits)
unfolding from_bitstring
from_bitstring-value [] h = absurd (omega arith)
from_bitstring-value (b ∷ bits) h = refl

-- A field of at least one bit is read back.
pub from_bitstring-binary :
    (width n : ℕ) → 0 < width → n < 2 ^ width → from_bitstring (binary width n) ≡ ok n
from_bitstring-binary width n h lt =
    from_bitstring-value (binary width n) (omega (arith, length-binary width n))
    ∙ ap (λ (m : ℕ). ok m) (value-binary width n lt)

pub to_bitstring-eq-ok :
    (n width : ℕ) (bits : Bits)
    → to_bitstring n width ≡ ok bits
    → (n < 2 ^ width) × (bits ≡ binary width n)
unfolding to_bitstring
to_bitstring-eq-ok n width bits h = ground (arith, ltb→lt n (2 ^ width))

binary-low_bit :
    (width acc : ℕ) (b : Bool)
    → binary (suc width) (acc * 2 + bit_value b) ≡ binary width acc ++ b ∷ []
unfolding binary
binary-low_bit width acc true = rw (low_half acc 1 (omega arith), low_odd acc)
binary-low_bit width acc false = rw (low_half acc 0 (omega arith), low_even acc)

low_bit_fits : (width acc : ℕ) (b : Bool) → acc < 2 ^ width → acc * 2 + bit_value b < 2 ^ suc width
low_bit_fits width acc true h = omega (arith, pow-suc 2 width)
low_bit_fits width acc false h = omega (arith, pow-suc 2 width)

-- Written in as many bits as it has, what a bitstring stands for is the bitstring.
pub binary-value :
    (width acc : ℕ) (bits : Bits)
    → binary (length bits + width) (value acc bits) ≡ binary width acc ++ bits
unfolding value
binary-value width acc [] = rw (zero-add, append-nil)
binary-value width acc (b ∷ bits) =
    let e : suc (length bits) + width ≡ length bits + suc width = omega arith in
    rw e (
      binary-value (suc width) (acc * 2 + bit_value b) bits
      ∙ rw (binary-low_bit width acc b, append_assoc))

pub value-lt :
    (width acc : ℕ) (bits : Bits) → acc < 2 ^ width → value acc bits < 2 ^ (length bits + width)
unfolding value
value-lt width acc [] h = rw zero-add h
value-lt width acc (b ∷ bits) h =
    let e : suc (length bits) + width ≡ length bits + suc width = omega arith in
    rw e (value-lt (suc width) (acc * 2 + bit_value b) bits (low_bit_fits width acc b h))
