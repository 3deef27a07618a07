-- ===== src/Evt/Decimal.antt =====
-- Python's `str` and `int` on the natural numbers: decimal text, as code points.
use qsp_protocol_node.Prelude.{
  ℕ, zero, suc, ◌+◌, ◌-◌, ◌*◌, ◌/◌, ◌%◌, ◌<◌, ◌≡◌, Bool, true, false, ◌&&◌, Option, none, some,
  List, [], ◌∷◌, ◌++◌, arith, leb, ltb, if◌then◌else◌, Bool-cases, length, inl, inr, All,
  All-append, All-map, if_cases, ◌==◌,
}

abbrev pub Text : Type 0
Text = List ℕ

-- The digits of `n`, the last one appended: `n / 10` has one round less to go than `n`.
digits : ℕ → ℕ → Text
digits zero n = []
digits (suc fuel) n =
    let rest = digits fuel (n / 10) in
    if ltb n 10 then (b'0' + n) ∷ [] else rest ++ (b'0' + n % 10) ∷ []

unfoldable pub str : ℕ → Text
unfolding digits
str n = digits (suc n) n

is_digit : ℕ → Bool
is_digit c = leb b'0' c && leb c b'9'

scan : ℕ → Text → Option ℕ
scan acc [] = some acc
scan acc (c ∷ cs) = let rest = scan (acc * 10 + (c - b'0')) cs in if is_digit c then rest else none

-- `int` on the texts that are decimal digits only. Signs, blanks and underscores, which Python
-- reads too, are refused here: the node gives `int` nothing but what `str` wrote.
unfoldable pub int : Text → Option ℕ
unfolding scan is_digit
int [] = none
int (c ∷ cs) = scan 0 (c ∷ cs)

scan-append_digit :
    (acc n d : ℕ) (cs : Text)
    → scan acc cs ≡ some n
    → d < 10
    → scan acc (cs ++ (b'0' + d) ∷ []) ≡ some (n * 10 + d)
unfolding scan is_digit
scan-append_digit acc n d [] h lt = ground arith
scan-append_digit acc n d (c ∷ cs) h lt = elim (Bool-cases (is_digit c)) [
  | inl e ↦ ground (arith, scan-append_digit (acc * 10 + (c - b'0')) n d cs)
  | inr e ↦ ground arith
]

scan-digits : (fuel n : ℕ) → n < fuel → scan 0 (digits fuel n) ≡ some n
unfolding scan digits is_digit
scan-digits zero n h = absurd (omega arith)
scan-digits (suc fuel) n h = elim (Bool-cases (ltb n 10)) [
  | inl e ↦ ground arith
  | inr e ↦ ground (
    arith,
    scan-append_digit 0 (n / 10) (n % 10) (digits fuel (n / 10))
        (scan-digits fuel (n / 10) (ground arith)) (ground arith),
  )
]

-- Text that begins with a digit is read by the scan.
int-of_scan : (n : ℕ) (t : Text) → 0 < length t → scan 0 t ≡ some n → int t ≡ some n
unfolding int
int-of_scan n [] h e = absurd (omega arith)
int-of_scan n (c ∷ cs) h e = e

length-append_digit : (cs : Text) (d : ℕ) → 0 < length (cs ++ d ∷ [])
length-append_digit [] d = omega arith
length-append_digit (c ∷ cs) d = omega arith

length-digits : (fuel n : ℕ) → 0 < length (digits (suc fuel) n)
unfolding digits
length-digits fuel n = ground (arith, length-append_digit (digits fuel (n / 10)) (b'0' + n % 10))

-- What `str` writes, `int` reads back.
pub int-str : (n : ℕ) → int (str n) ≡ some n
unfolding str
int-str n =
    int-of_scan n (digits (suc n) n) (length-digits n n) (scan-digits (suc n) n (omega arith))

-- `str` writes digits only.
digits-All : (fuel n : ℕ) → All (λ c. is_digit c ≡ true) (digits fuel n)
unfolding digits is_digit
digits-All zero n = tt
digits-All (suc fuel) n =
    if_cases (All (λ c. is_digit c ≡ true)) (ltb n 10) (λ h. (ground arith, tt))
      (λ h.
        All-append (λ c. is_digit c ≡ true) (digits fuel (n / 10)) _ (digits-All fuel (n / 10))
          (ground arith, tt))

digit_no_dot : (c : ℕ) → is_digit c ≡ true → (c == b'.') ≡ false
unfolding is_digit
digit_no_dot c h = ground arith

pub str-digits : (n : ℕ) → All (λ c. (c == b'.') ≡ false) (str n)
unfolding str
str-digits n =
    All-map (λ c. is_digit c ≡ true) (λ c. (c == b'.') ≡ false) (digits (suc n) n) digit_no_dot
      (digits-All (suc n) n)
