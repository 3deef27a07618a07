-- ===== src/Report/Header/Versions.antt =====
-- The version string of the node: `version.split(".")` read as three numbers, and `".".join`.
use qsp_protocol_node.Prelude.{
  ℕ, ◌≡◌, refl, false, none, some, List, [], ◌∷◌, ◌++◌, arith, if◌then◌else◌, ◌==◌, All, Result, ok,
  raise, value_error, ◌>>=◌, ap, ◌∙◌,
}
use qsp_protocol_node.Evt.Decimal.{Text, str, int, int-str, str-digits}

pub record Version : Type 0 where
  pub major : ℕ
  pub minor : ℕ
  pub patch : ℕ

-- A character before the parts of what follows it.
abbrev prepend : ℕ → List Text → List Text
prepend c [] = (c ∷ []) ∷ []
prepend c (part ∷ parts) = (c ∷ part) ∷ parts

-- `split(".")`.
unfoldable pub split : Text → List Text
split [] = [] ∷ []
split (c ∷ s) = let parts = split s in if c == b'.' then [] ∷ parts else prepend c parts

int_or_raise : Text → Result ℕ
int_or_raise s = elim (int s) [
  | none ↦ raise (value_error "invalid literal for int()")
  | some n ↦ ok n
]

ints : List Text → Result (List ℕ)
unfolding int_or_raise
ints [] = ok []
ints (part ∷ parts) = do n ← int_or_raise part; rest ← ints parts; ok (n ∷ rest)

-- `major, minor, patch = numbers`.
unpack : List ℕ → Result Version
unpack (major ∷ minor ∷ patch ∷ []) = ok (record { major = major; minor = minor; patch = patch })
unpack _ = raise (value_error "wrong number of values to unpack")

unfoldable pub parse_version : Text → Result Version
unfolding split ints unpack
parse_version version = do numbers ← ints (split version); unpack numbers

unfoldable pub format_version : Version → Text
format_version v = str v.major ++ (b'.' ∷ (str v.minor ++ (b'.' ∷ str v.patch)))

-- A part without a dot is split off whole.
split-part :
    (part rest : Text)
    → All (λ c. (c == b'.') ≡ false) part
    → split (part ++ b'.' ∷ rest) ≡ part ∷ split rest
unfolding split
split-part [] rest h = refl
split-part (c ∷ part) rest h = rw (h.0, split-part part rest h.1)

split-last : (part : Text) → All (λ c. (c == b'.') ≡ false) part → split part ≡ part ∷ []
unfolding split
split-last [] h = refl
split-last (c ∷ part) h = rw (h.0, split-last part h.1)

split-format_version :
    (v : Version) → split (format_version v) ≡ str v.major ∷ str v.minor ∷ str v.patch ∷ []
unfolding format_version
split-format_version v =
    split-part (str v.major) (str v.minor ++ (b'.' ∷ str v.patch)) (str-digits v.major)
    ∙ ap (λ t. str v.major ∷ t)
        (split-part (str v.minor) (str v.patch) (str-digits v.minor)
          ∙ ap (λ t. str v.minor ∷ t) (split-last (str v.patch) (str-digits v.patch)))

int_or_raise-str : (n : ℕ) → int_or_raise (str n) ≡ ok n
unfolding int_or_raise
int_or_raise-str n = ground (arith, int-str n)

ints-cons :
    (n : ℕ) (parts : List Text) (ns : List ℕ)
    → ints parts ≡ ok ns
    → ints (str n ∷ parts) ≡ ok (n ∷ ns)
ints-cons n parts ns h = ints_step (str n) parts ∙ rw (int_or_raise-str n, h)
  where
    ints_step :
        (part : Text) (parts : List Text)
        → ints (part ∷ parts) ≡ (do n ← int_or_raise part; rest ← ints parts; ok (n ∷ rest))
    ints_step part parts = unfold ints in refl

ints_format :
    (v : Version)
    → ints (str v.major ∷ str v.minor ∷ str v.patch ∷ []) ≡ ok (v.major ∷ v.minor ∷ v.patch ∷ [])
ints_format v =
    ints-cons v.major _ _ (ints-cons v.minor _ _ (ints-cons v.patch [] [] (unfold ints in refl)))

-- A version that is written is read back.
pub parse_version-format_version : (v : Version) → parse_version (format_version v) ≡ ok v
unfolding parse_version
parse_version-format_version v =
    ap (λ parts. ints parts >>= unpack) (split-format_version v)
    ∙ ap (λ r. r >>= unpack) (ints_format v)
    ∙ unfold unpack in refl
