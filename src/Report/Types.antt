-- ===== src/Report/Types.antt =====
-- ReportEncoder.__initialize_vulnerability_types: names of vulnerabilities and their bitstrings.
use mathlib.Core.Option.{some-injective}
use mathlib.Core.Path.{ap₂}
use qsp_protocol_node.Prelude.{
  ℕ, ◌+◌, ◌<◌, ◌^◌, ◌≡◌, refl, String, Bool, true, false, ◌&&◌, Option, none, some, List, [], ◌∷◌,
  arith, if◌then◌else◌, str_eq, eq_iff, Result, ok, ◌>>=◌, >>=-eq-ok, ok-injective, Bool-cases, inl,
  inr, ◌⊎◌, ap, sym, ◌∙◌, length, ◌≢◌, ◌↔◌,
}
use qsp_protocol_node.Report.Bits.{
  Bits, to_bitstring, binary, to_bitstring-eq-ok, length-binary, value-binary, value,
}

abbrev bit_eq : Bool → Bool → Bool
bit_eq true true = true
bit_eq false false = true
bit_eq _ _ = false

-- Equality of two bitstrings.
unfoldable pub bits_eq : Bits → Bits → Bool
bits_eq [] [] = true
bits_eq (b ∷ bs) (c ∷ cs) = bit_eq b c && bits_eq bs cs
bits_eq _ _ = false

pub bits_eq_iff : (bs cs : Bits) → (bits_eq bs cs ≡ true) ↔ (bs ≡ cs)
unfolding bits_eq
bits_eq_iff [] [] = (λ _. refl, λ _. refl)
bits_eq_iff [] (c ∷ cs) = (λ h. cc, λ h. cc)
bits_eq_iff (b ∷ bs) [] = (λ h. cc, λ h. cc)
bits_eq_iff (b ∷ bs) (c ∷ cs) =
    (λ h. ground (arith, (bits_eq_iff bs cs).0), λ h. ground (arith, (bits_eq_iff bs cs).1))

abbrev pub VulnerabilityTypes : Type 0
VulnerabilityTypes = List (String × Bits)

-- The loop over the list of the JSON file, in which the count is the next bitstring.
unfoldable pub initialize_from : ℕ → List String → Result VulnerabilityTypes
initialize_from count [] = ok []
initialize_from count (name ∷ names) = do
  bitstring ← to_bitstring count 8
  rest ← initialize_from (count + 1) names
  ok ((name, bitstring) ∷ rest)

unfoldable pub initialize_vulnerability_types : List String → Result VulnerabilityTypes
unfolding initialize_from
initialize_vulnerability_types names = initialize_from 0 names

-- A dictionary keeps the last value that was assigned to a key.
later : {V : Type 0} → Option V → Bool → V → Option V
later (some w) hit v = some w
later none hit v = if hit then some v else none

-- self.__vulnerability_types.get(name)
unfoldable pub type_bits : VulnerabilityTypes → String → Option Bits
unfolding later
type_bits [] name = none
type_bits ((key, bits) ∷ types) name = later (type_bits types name) (str_eq key name) bits

-- self.__vulnerability_types_inverted.get(bits)
unfoldable pub bits_type : VulnerabilityTypes → Bits → Option String
unfolding later
bits_type [] bits = none
bits_type ((name, key) ∷ types) bits = later (bits_type types bits) (bits_eq key bits) name

initialize-cons :
    (count : ℕ) (name : String) (names : List String) (types : VulnerabilityTypes)
    → initialize_from count (name ∷ names) ≡ ok types
    → (rest : VulnerabilityTypes) × (initialize_from (count + 1) names ≡ ok rest)
      × (count < 2 ^ 8)
      × (types ≡ (name, binary 8 count) ∷ rest)
unfolding initialize_from
initialize-cons count name names types h =
    let (bits, e, h₁) = >>=-eq-ok (to_bitstring count 8) _ h in
    let (rest, e', h₂) = >>=-eq-ok (initialize_from (count + 1) names) _ h₁ in
    let (fits, q) = to_bitstring-eq-ok count 8 bits e in
    (rest, e', fits, sym (ok-injective h₂) ∙ ap (λ (b : Bits). (name, b) ∷ rest) q)

initialize-nil :
    (count : ℕ) (types : VulnerabilityTypes) → initialize_from count [] ≡ ok types → types ≡ []
unfolding initialize_from
initialize-nil count types h = sym (ok-injective h)

binary_ne : (m n : ℕ) → m < 2 ^ 8 → n < 2 ^ 8 → m ≢ n → bits_eq (binary 8 m) (binary 8 n) ≡ false
binary_ne m n hm hn ne = elim (Bool-cases (bits_eq (binary 8 m) (binary 8 n))) [
  | inl e ↦ absurd (
      ne (
        sym (value-binary 8 m hm)
        ∙ ap (value 0) ((bits_eq_iff (binary 8 m) (binary 8 n)).0 e)
        ∙ value-binary 8 n hn))
  | inr e ↦ e
]

bits_type-cons :
    (name : String) (key bits : Bits) (types : VulnerabilityTypes)
    → bits_type ((name, key) ∷ types) bits ≡ later (bits_type types bits) (bits_eq key bits) name
unfolding bits_type
bits_type-cons name key bits types = refl

type_bits-cons :
    (name key : String) (bits : Bits) (types : VulnerabilityTypes)
    → type_bits ((key, bits) ∷ types) name ≡ later (type_bits types name) (str_eq key name) bits
unfolding type_bits
type_bits-cons name key bits types = refl

-- Bitstrings below the count are not given out any more.
fresh_bits :
    (names : List String) (count : ℕ) (types : VulnerabilityTypes) (n : ℕ)
    → initialize_from count names ≡ ok types
    → n < count
    → n < 2 ^ 8
    → bits_type types (binary 8 n) ≡ none
fresh_bits [] count types n h lt fits = rw (initialize-nil count types h) (unfold bits_type in refl)
fresh_bits (name ∷ names) count types n h lt fits =
    let (rest, e, count_fits, q) = initialize-cons count name names types h in
    ap (λ (t : VulnerabilityTypes). bits_type t (binary 8 n)) q
    ∙ bits_type-cons name (binary 8 count) (binary 8 n) rest
    ∙ ap₂ (λ (o : Option String) (b : Bool). later o b name)
        (fresh_bits names (count + 1) rest n e (omega arith) fits)
        (binary_ne count n count_fits fits (omega arith))
    ∙ unfold later in refl

later-cases :
    {V : Type 0} (o : Option V) (hit : Bool) (v w : V)
    → later o hit v ≡ some w
    → (o ≡ some w) ⊎ ((o ≡ none) × (hit ≡ true) × (v ≡ w))
unfolding later
later-cases (some x) hit v w h = inl h
later-cases none true v w h = inr (refl, refl, some-injective v w h)
later-cases none false v w h = cc

bits_eq_refl : (bits : Bits) → bits_eq bits bits ≡ true
bits_eq_refl bits = (bits_eq_iff bits bits).1 refl

-- The bitstring that is given for a name stands for that name, and has eight bits, also where the
-- file names a type twice.
pub bits_type-type_bits :
    (names : List String) (count : ℕ) (types : VulnerabilityTypes) (name : String) (bits : Bits)
    → initialize_from count names ≡ ok types
    → type_bits types name ≡ some bits
    → (bits_type types bits ≡ some name) × (length bits ≡ 8)
bits_type-type_bits [] count types name bits h t =
    let e : none ≡ some bits =
      unfold type_bits in
      sym (ap (λ (ts : VulnerabilityTypes). type_bits ts name) (initialize-nil count types h))
      ∙ t in
    cc
bits_type-type_bits (key ∷ names) count types name bits h t =
    let (rest, e, fits, q) = initialize-cons count key names types h in
    let t' : later (type_bits rest name) (str_eq key name) (binary 8 count) ≡ some bits =
      sym (type_bits-cons name key (binary 8 count) rest)
      ∙ sym (ap (λ (ts : VulnerabilityTypes). type_bits ts name) q)
      ∙ t in
    let back =
      ap (λ (ts : VulnerabilityTypes). bits_type ts bits) q
      ∙ bits_type-cons key (binary 8 count) bits rest in
    elim (later-cases (type_bits rest name) (str_eq key name) (binary 8 count) bits t') [
      | inl old ↦
          let (found, eight) = bits_type-type_bits names (count + 1) rest name bits e old in
          (
            back
                ∙ ap (λ (o : Option String). later o (bits_eq (binary 8 count) bits) key) found
                ∙ unfold later in refl,
            eight,
          )
      | inr (missing, hit, same) ↦
          let none_later = fresh_bits names (count + 1) rest count e (omega arith) fits in
          (
            back
                ∙ ap₂ (λ (o : Option String) (b : Bool). later o b key)
                    (ap (bits_type rest) (sym same) ∙ none_later)
                    (ap (bits_eq (binary 8 count)) (sym same) ∙ bits_eq_refl (binary 8 count))
                ∙ unfold later in ap (λ (s : String). some s) ((eq_iff key name).0 hit),
            ap length (sym same) ∙ length-binary 8 count,
          )
    ]
