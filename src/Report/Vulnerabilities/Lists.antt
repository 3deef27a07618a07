-- ===== src/Report/Vulnerabilities/Lists.antt =====
-- The list of vulnerabilities of a report, its codes without repetitions, and the loop that reads
-- them back.
use mathlib.Core.Option.{some-injective}
use qsp_protocol_node.Prelude.{
  ℕ, zero, suc, ◌<◌, ◌≤◌, ◌≡◌, refl, String, Bool, true, false, ◌&&◌, Option, none, some, List, [],
  ◌∷◌, ◌++◌, arith, if◌then◌else◌, ◌==◌, str_eq, eq_iff, length, Result, ok, >>=-eq-ok,
  ok-injective, Bool-cases, inl, inr, ap, sym, ◌∙◌, length-append, subst, ◌↔◌,
}
use qsp_protocol_node.Report.Bits.{Bits}
use qsp_protocol_node.Report.Types.{VulnerabilityTypes, bits_eq, bits_eq_iff}
use qsp_protocol_node.Report.Json.{Instance, Vulnerability, AnalyzerReport}
use qsp_protocol_node.Report.Vulnerabilities.{
  Finding, decode_vulnerability, decode_loop, decode_vulnerabilities, encode_vulnerabilities,
  encode_reports, encode_potential, encode_instances, encode_instance, from_keys, member, join,
  potential,
}
use qsp_protocol_node.Report.Vulnerabilities.Encoding.{Encodes, finding, encode_instance-Encodes}
use qsp_protocol_node.Report.Vulnerabilities.RoundTrip.{AreTypes, decode-Encodes, length-Encodes}

-- The vulnerabilities that a report lists, in their order. One with no type is refused if it has
-- instances, and counts for nothing.
unfoldable pub instance_findings : Option String → List Instance → List Finding
instance_findings none is = []
instance_findings (some name) [] = []
instance_findings (some name) (i ∷ is) = finding name i ∷ instance_findings (some name) is

unfoldable pub potential_findings : List Vulnerability → List Finding
potential_findings [] = []
potential_findings (v ∷ vs) = instance_findings v.type v.instances ++ potential_findings vs

unfoldable pub report_findings : List AnalyzerReport → List Finding
unfolding potential_findings instance_findings
report_findings [] = []
report_findings (r ∷ rs) = potential_findings (potential r) ++ report_findings rs

-- Equality of two vulnerabilities.
unfoldable pub finding_eq : Finding → Finding → Bool
finding_eq f g = str_eq f.type g.type && (f.start_line == g.start_line && f.end_line == g.end_line)

pub finding_eq_iff : (f g : Finding) → (finding_eq f g ≡ true) ↔ (f ≡ g)
unfolding finding_eq
finding_eq_iff f g =
    (λ h. ground (arith, eq_iff f.type g.type), λ h. ground (arith, eq_iff f.type g.type))

-- Each code is that of the vulnerability at its place.
pub data Coded (types : VulnerabilityTypes) : List Finding → List Bits → Type 0 where
  nil : Coded types [] []
  cons :
      {f : Finding} {bits : Bits} {fs : List Finding} {codes : List Bits}
      → Encodes types f bits
      → Coded types fs codes
      → Coded types (f ∷ fs) (bits ∷ codes)

Coded-append :
    {types : VulnerabilityTypes} {fs gs : List Finding} {cs ds : List Bits}
    → Coded types fs cs
    → Coded types gs ds
    → Coded types (fs ++ gs) (cs ++ ds)
Coded-append nil d = d
Coded-append (cons e c) d = cons e (Coded-append c d)

encode_instances-Coded :
    (types : VulnerabilityTypes) (type : Option String) (is : List Instance) (codes : List Bits)
    → encode_instances types type is ≡ ok codes
    → Coded types (instance_findings type is) codes
unfolding encode_instances instance_findings
encode_instances-Coded types none [] codes h = subst (Coded types []) (ok-injective h) nil
encode_instances-Coded types (some name) [] codes h = subst (Coded types []) (ok-injective h) nil
encode_instances-Coded types none (i ∷ is) codes h =
    let (bits, e, h₁) = >>=-eq-ok (encode_instance types none i) _ h in
    let (name, named, c) = encode_instance-Encodes types none i bits e in cc
encode_instances-Coded types (some type) (i ∷ is) codes h =
    let (bits, e, h₁) = >>=-eq-ok (encode_instance types (some type) i) _ h in
    let (rest, e', h₂) = >>=-eq-ok (encode_instances types (some type) is) _ h₁ in
    let (name, named, c) = encode_instance-Encodes types (some type) i bits e in
    let same : name ≡ type = cc in
    subst (Coded types (finding type i ∷ instance_findings (some type) is)) (ok-injective h₂) (
      cons (subst (λ (n : String). Encodes types (finding n i) bits) same c)
        (encode_instances-Coded types (some type) is rest e'))

encode_potential-Coded :
    (types : VulnerabilityTypes) (vs : List Vulnerability) (codes : List Bits)
    → encode_potential types vs ≡ ok codes
    → Coded types (potential_findings vs) codes
unfolding encode_potential potential_findings
encode_potential-Coded types [] codes h = subst (Coded types []) (ok-injective h) nil
encode_potential-Coded types (v ∷ vs) codes h =
    let (bits, e, h₁) = >>=-eq-ok (encode_instances types v.type v.instances) _ h in
    let (rest, e', h₂) = >>=-eq-ok (encode_potential types vs) _ h₁ in
    subst (Coded types (instance_findings v.type v.instances ++ potential_findings vs))
      (ok-injective h₂)
      (Coded-append (encode_instances-Coded types v.type v.instances bits e)
        (encode_potential-Coded types vs rest e'))

pub encode_reports-Coded :
    (types : VulnerabilityTypes) (rs : List AnalyzerReport) (codes : List Bits)
    → encode_reports types rs ≡ ok codes
    → Coded types (report_findings rs) codes
unfolding encode_reports report_findings
encode_reports-Coded types [] codes h = subst (Coded types []) (ok-injective h) nil
encode_reports-Coded types (r ∷ rs) codes h =
    let (bits, e, h₁) = >>=-eq-ok (encode_potential types (potential r)) _ h in
    let (rest, e', h₂) = >>=-eq-ok (encode_reports types rs) _ h₁ in
    subst (Coded types (potential_findings (potential r) ++ report_findings rs)) (ok-injective h₂) (
      Coded-append (encode_potential-Coded types (potential r) bits e)
        (encode_reports-Coded types rs rest e'))

Encodes-unique :
    (types : VulnerabilityTypes) (f : Finding) (c d : Bits)
    → Encodes types f c
    → Encodes types f d
    → c ≡ d
Encodes-unique types f c d e k =
    let same : e.id ≡ k.id = some-injective e.id k.id (sym e.id_eq ∙ k.id_eq) in
    e.layout ∙ rw same (sym k.layout)

one_code : {c d : Bits} → bits_eq c d ≡ false → c ≡ d → ⊥
one_code {c} {d} differ same = ground (arith, (bits_eq_iff c d).1 same)

-- Two codes are equal exactly when the vulnerabilities are.
codes_eq :
    (types : VulnerabilityTypes) (f g : Finding) (c d : Bits)
    → AreTypes types
    → Encodes types f c
    → Encodes types g d
    → bits_eq c d ≡ finding_eq f g
codes_eq types f g c d valid e k = elim (Bool-cases (bits_eq c d)) [
  | inl same ↦
      let q : c ≡ d = (bits_eq_iff c d).0 same in
      let r : ◌≡◌ {A = Result (Finding × Bits)} (ok (f, [])) (ok (g, [])) =
        sym (decode-Encodes types f c [] valid e)
        ∙ ap (λ (b : Bits). decode_vulnerability types (b ++ [])) q
        ∙ decode-Encodes types g d [] valid k in
      same ∙ sym ((finding_eq_iff f g).1 (ap (λ (p : Finding × Bits). p.0) (ok-injective r)))
  | inr differ ↦ elim (Bool-cases (finding_eq f g)) [
    | inl same ↦ absurd (
        one_code differ (
          Encodes-unique types g c d
            (subst (λ (x : Finding). Encodes types x c) ((finding_eq_iff f g).0 same) e) k))
    | inr e' ↦ differ ∙ sym e'
  ]
]

member-Coded :
    {types : VulnerabilityTypes} (valid : AreTypes types) {f : Finding} {c : Bits}
    {seen : List Finding} {codes : List Bits}
    → Encodes types f c
    → Coded types seen codes
    → member bits_eq c codes ≡ member finding_eq f seen
unfolding member
member-Coded valid e nil = refl
member-Coded {types} valid {f} {c} e (cons {f = g} {bits = d} k rest) =
    rw (codes_eq types f g c d valid e k, member-Coded valid e rest)

-- Leaving out repeated codes leaves out the repeated vulnerabilities.
from_keys-Coded :
    {types : VulnerabilityTypes} (valid : AreTypes types) {seen fs : List Finding}
    {codes cs : List Bits}
    → Coded types seen codes
    → Coded types fs cs
    → Coded types (from_keys finding_eq seen fs) (from_keys bits_eq codes cs)
unfolding from_keys
from_keys-Coded valid s nil = nil
from_keys-Coded {types} valid {seen} {codes} s (cons {f} {bits} e rest) =
    let old = from_keys-Coded valid s rest in
    let new = from_keys-Coded valid (cons e s) rest in
    rw (member-Coded valid e s) (choose (member finding_eq f seen) old (cons e new))
  where
    choose :
        (b : Bool) {fs gs : List Finding} {cs ds : List Bits}
        → Coded types fs cs
        → Coded types gs ds
        → Coded types (if b then fs else gs) (if b then cs else ds)
    choose true x y = x
    choose false x y = y

decode_loop-nil : (types : VulnerabilityTypes) (fuel : ℕ) → decode_loop types fuel [] ≡ ok []
unfolding decode_loop
decode_loop-nil types zero = refl
decode_loop-nil types (suc fuel) = refl

decode_loop-step :
    (types : VulnerabilityTypes) (fuel : ℕ) (bits rest : Bits) (f : Finding) (fs : List Finding)
    → 0 < length bits
    → decode_vulnerability types bits ≡ ok (f, rest)
    → decode_loop types fuel rest ≡ ok fs
    → decode_loop types (suc fuel) bits ≡ ok (f ∷ fs)
unfolding decode_loop
decode_loop-step types fuel [] rest f fs pos h k = absurd (omega arith)
decode_loop-step types fuel (b ∷ bits) rest f fs pos h k = rw h (rw k)

-- The loop reads the codes one by one, if it has a round for each.
decode_loop-join :
    {types : VulnerabilityTypes} (valid : AreTypes types) {fs : List Finding} {codes : List Bits}
    → Coded types fs codes
    → (fuel : ℕ) → length (join codes) ≤ fuel
    → decode_loop types fuel (join codes) ≡ ok fs
unfolding join
decode_loop-join {types} valid nil fuel h = decode_loop-nil types fuel
decode_loop-join {types} valid (cons {f} {bits} {codes} e rest) zero h =
    absurd (omega (arith, length-append {0} bits (join codes), length-Encodes types f bits e))
decode_loop-join {types} valid (cons {f} {bits} {fs} {codes} e rest) (suc fuel) h =
    let l = length-append {0} bits (join codes) in
    let pos = length-Encodes types f bits e in
    decode_loop-step types fuel (bits ++ join codes) (join codes) f fs (omega arith)
      (decode-Encodes types f bits (join codes) valid e)
      (decode_loop-join valid rest fuel (omega arith))

encoded_codes :
    (types : VulnerabilityTypes) (reports : List AnalyzerReport) (bits : Bits)
    → encode_vulnerabilities types reports ≡ ok bits
    → (codes : List Bits) × (encode_reports types reports ≡ ok codes)
      × (join (from_keys bits_eq [] codes) ≡ bits)
unfolding encode_vulnerabilities
encoded_codes types reports bits h =
    let (codes, e, h₁) = >>=-eq-ok (encode_reports types reports) _ h in (codes, e, ok-injective h₁)

-- The distinct vulnerabilities that a report lists, in the order of their first mention.
abbrev pub distinct_findings : List AnalyzerReport → List Finding
distinct_findings reports = from_keys finding_eq [] (report_findings reports)

-- Whatever vulnerabilities the encoder accepts, the decoder gives back the distinct ones in their
-- order, with a missing or zero end line read as the start line.
pub decode-encode_vulnerabilities :
    (types : VulnerabilityTypes) (reports : List AnalyzerReport) (bits : Bits)
    → AreTypes types
    → encode_vulnerabilities types reports ≡ ok bits
    → decode_vulnerabilities types bits ≡ ok (distinct_findings reports)
unfolding decode_vulnerabilities
decode-encode_vulnerabilities types reports bits valid h =
    let (codes, e, q) = encoded_codes types reports bits h in
    subst (λ (b : Bits). decode_loop types (length b) b ≡ ok (distinct_findings reports)) q
      (decode_loop-join valid
        (from_keys-Coded valid nil (encode_reports-Coded types reports codes e))
        (length (join (from_keys bits_eq [] codes))) (omega arith))
