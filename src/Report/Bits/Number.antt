-- ===== src/Report/Bits/Number.antt =====
-- Whether Python's `int(number, 16)` has a value, for texts of ASCII: blanks around it, a sign, the
-- prefix 0x and single underscores between the digits are taken.
use qsp_protocol_node.Prelude.{ℕ, Bool, true, false, ◌&&◌, ◌||◌, [], ◌∷◌, if◌then◌else◌, leb, ◌==◌}
use qsp_protocol_node.Evt.Decimal.{Text}

abbrev is_blank : ℕ → Bool
is_blank c = c == 32 || (leb 9 c && leb c 13 || leb 28 c && leb c 31)

abbrev is_hex_digit : ℕ → Bool
is_hex_digit c = leb b'0' c && leb c b'9' || (leb b'a' c && leb c b'f' || leb b'A' c && leb c b'F')

all_blank : Text → Bool
all_blank [] = true
all_blank (c ∷ s) = is_blank c && all_blank s

-- The digits and what follows them; `after` says whether a digit stands before this place.
digits : Bool → Text → Bool
unfolding all_blank
digits after [] = after
digits after (c ∷ s) =
    let more = digits true s in
    let underscored = digits false s in
    if is_hex_digit c
    then more
    else if c == b'_'
    then after && underscored
    else after && all_blank (c ∷ s)

-- One underscore may follow the prefix.
after_prefix : Text → Bool
unfolding digits
after_prefix [] = false
after_prefix (c ∷ s) = if c == b'_' then digits false s else digits false (c ∷ s)

unsigned : Text → Bool
unfolding after_prefix
unsigned [] = false
unsigned (c ∷ []) = digits false (c ∷ [])
unsigned (c ∷ d ∷ s) =
    if c == b'0' && (d == b'x' || d == b'X') then after_prefix s else digits false (c ∷ d ∷ s)

unfoldable pub is_number : Text → Bool
unfolding unsigned
is_number [] = false
is_number (c ∷ s) =
    let rest = is_number s in
    if is_blank c then rest else if c == b'+' || c == b'-' then unsigned s else unsigned (c ∷ s)
