-- ===== src/Report/Police/Judged.antt =====
-- When a police node deems a report correct.
use qsp_protocol_node.Prelude.{
  ◌*◌, ◌≤◌, ◌≡◌, ◌≢◌, refl, true, false, Option, some, [], ◌∷◌, arith, map, ◌==◌, length, Result,
  ok, >>=-eq-ok, ok-injective, Option-cases, Result-cases, inl, inr, sym, ◌∙◌, ap,
}
use qsp_protocol_node.Evt.Decimal.{Text}
use qsp_protocol_node.Report.Types.{VulnerabilityTypes}
use qsp_protocol_node.Report.Json.{Report}
use qsp_protocol_node.Report.Compress.{decode_report}
use qsp_protocol_node.Report.Police.{
  Pairs, from_uncompressed_report, intersection, to_lower, text_eq, text_eq-eq, is_similar,
  compare_reports, decompressed, is_report_deemed_correct, Agree,
}

is_similar-three_fifths :
    (auditor police : Pairs)
    → is_similar auditor police ≡ true
    → 3 * length police ≤ 5 * length (intersection auditor police)
unfolding is_similar
is_similar-three_fifths auditor police h = ground arith

-- The guards of the comparison.
compare_guards :
    (audit_report police_report : Report)
    → compare_reports audit_report police_report ≡ ok true
    → (text_eq (map to_lower audit_report.contract_hash) (map to_lower police_report.contract_hash)
        ≡ true)
      × ((length (map to_lower police_report.contract_hash) == 0) ≡ false)
unfolding compare_reports
compare_guards audit_report police_report h = ground arith

length_none : (s : Text) → (length (map to_lower s) == 0) ≡ false → length s ≢ 0
length_none [] h e = cc
length_none (c ∷ s) h e = absurd (omega arith)

compare-Agree :
    (audit_report police_report : Report)
    → compare_reports audit_report police_report ≡ ok true
    → Agree audit_report police_report
unfolding compare_reports
compare-Agree audit_report police_report h =
    let (same, some_hash) = compare_guards audit_report police_report h in
    elim (Result-cases (from_uncompressed_report audit_report)) [
      | inr (e, a) ↦ absurd (ground arith)
      | inl (auditor, a) ↦ elim (Result-cases (from_uncompressed_report police_report)) [
        | inr (e, p) ↦ absurd (ground arith)
        | inl (police, p) ↦ record {
          hash_eq = text_eq-eq _ _ same;
          has_hash = length_none police_report.contract_hash some_hash;
          auditor = auditor;
          police = police;
          auditor_eq = a;
          police_eq = p;
          three_fifths = is_similar-three_fifths auditor police (ground arith);
        }
      ]
    ]

-- A report that a police node deems correct is on the chain, decodes to a report that the schema
-- accepts, has the contract hash of the police report up to case, which is not empty, and has at
-- least three fifths of the vulnerabilities that the police found.
pub deemed_correct-Agree :
    (types : VulnerabilityTypes) (validate : Report → Result Report) (answer : Result (Option Text))
    (police_report : Report)
    → is_report_deemed_correct types validate answer police_report ≡ ok true
    → (compressed : Text) × (audit_report validated : Report) × (answer ≡ ok (some compressed))
      × (decode_report types compressed ≡ ok audit_report)
      × (validate audit_report ≡ ok validated)
      × Agree audit_report police_report
unfolding is_report_deemed_correct decompressed
deemed_correct-Agree types validate answer police_report h =
    let (found, a, h₁) = >>=-eq-ok answer _ h in
    elim (Option-cases found) [
      | inl n ↦ absurd (ground arith)
      | inr (compressed, f) ↦ elim (Result-cases (decompressed types validate compressed)) [
        | inr (e, d) ↦ absurd (ground arith)
        | inl (audit_report, d) ↦
            let (report, r, d₁) = >>=-eq-ok (decode_report types compressed) _ d in
            let (validated, v, d₂) = >>=-eq-ok (validate report) _ d₁ in
            let same : report ≡ audit_report = ok-injective d₂ in
            (
              compressed,
              audit_report,
              validated,
              a ∙ ap (λ (o : Option Text). ok o) f,
              r ∙ ap (λ (x : Report). ok x) same,
              ap validate (sym same) ∙ v,
              compare-Agree audit_report police_report (ground arith),
            )
      ]
    ]

decompressed-ok :
    (types : VulnerabilityTypes) (validate : Report → Result Report) (compressed : Text)
    (audit_report validated : Report)
    → decode_report types compressed ≡ ok audit_report
    → validate audit_report ≡ ok validated
    → decompressed types validate compressed ≡ ok audit_report
unfolding decompressed
decompressed-ok types validate compressed audit_report validated d v = rw d (rw v refl)

-- A report that decodes and is accepted by the schema is compared.
pub deemed_correct-compare :
    (types : VulnerabilityTypes) (validate : Report → Result Report) (compressed : Text)
    → (audit_report validated police_report : Report)
    → decode_report types compressed ≡ ok audit_report
    → validate audit_report ≡ ok validated
    → is_report_deemed_correct types validate (ok (some compressed)) police_report
      ≡ compare_reports audit_report police_report
unfolding is_report_deemed_correct
deemed_correct-compare types validate compressed audit_report validated police_report d v =
    let r = decompressed-ok types validate compressed audit_report validated d v in
    ground (arith, r)
