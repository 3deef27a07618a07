-- ===== src/Report/Police/Covered.antt =====
-- A police node accepts a report that has all that it found itself.
use qsp_protocol_node.Prelude.{
  ℕ, ◌≡◌, ◌≢◌, refl, String, Bool, true, false, ◌&&◌, some, List, [], ◌∷◌, ◌++◌, append-nil, map,
  arith, ◌==◌, length, Result, ok, >>=-eq-ok, ok-injective, subst, ap, sym, ◌∙◌,
}
use qsp_protocol_node.Evt.Decimal.{Text}
use qsp_protocol_node.Report.Bits.Hex.{to_upper}
use qsp_protocol_node.Report.Header.Versions.{Version, parse_version, format_version}
use qsp_protocol_node.Report.Types.{VulnerabilityTypes}
use qsp_protocol_node.Report.Json.{Report}
use qsp_protocol_node.Report.Vulnerabilities.{Finding, member, from_keys}
use qsp_protocol_node.Report.Vulnerabilities.RoundTrip.{AreTypes}
use qsp_protocol_node.Report.Vulnerabilities.Lists.{report_findings, distinct_findings, finding_eq}
use qsp_protocol_node.Report.Produce.{group, produce_json}
use qsp_protocol_node.Report.Compress.{compress_report, analyzers}
use qsp_protocol_node.Report.Compress.RoundTrip.{decode-compress_report}
use qsp_protocol_node.Report.Police.{
  Pairs, pair_eq, report_pairs, from_uncompressed_report, intersection, to_lower, text_eq,
  is_similar, compare_reports, is_report_deemed_correct,
}
use qsp_protocol_node.Report.Police.Judged.{deemed_correct-compare}
use qsp_protocol_node.Report.Police.Sets.{
  member-from_keys, Distinct, from_keys-Distinct, length-le-of_subset,
}
use qsp_protocol_node.Report.Police.Pairs.{
  pair_eq_iff, pairs, report_pairs-findings, member-from_keys-pairs, groups_pairs,
  potential_pairs-to_vulnerabilities, member-group,
}

and_true : (b : Bool) → (b && true) ≡ b
and_true true = refl
and_true false = refl

-- The keys have every pair.
member-keys :
    (q : String × ℕ) (ps : Pairs) → member pair_eq q (from_keys pair_eq [] ps) ≡ member pair_eq q ps
unfolding member
member-keys q ps = member-from_keys pair_eq pair_eq_iff q [] ps ∙ and_true (member pair_eq q ps)

-- The set of a report has the pairs of its vulnerabilities.
member-from_uncompressed :
    (report : Report) (set : Pairs) (q : String × ℕ)
    → from_uncompressed_report report ≡ ok set
    → member pair_eq q set ≡ member pair_eq q (pairs (report_findings (analyzers report)))
unfolding from_uncompressed_report member
member-from_uncompressed report set q h =
    let (ps, e, h₁) = >>=-eq-ok (report_pairs (analyzers report)) _ h in
    let listed = report_pairs-findings (analyzers report) ps e in
    ap (member pair_eq q) (sym (ok-injective h₁)) ∙ member-keys q ps ∙ ap (member pair_eq q) listed

from_uncompressed-Distinct :
    (report : Report) (set : Pairs)
    → from_uncompressed_report report ≡ ok set
    → Distinct pair_eq pair_eq_iff set
unfolding from_uncompressed_report
from_uncompressed-Distinct report set h =
    let (ps, e, h₁) = >>=-eq-ok (report_pairs (analyzers report)) _ h in
    subst (Distinct pair_eq pair_eq_iff) (ok-injective h₁)
      (from_keys-Distinct pair_eq pair_eq_iff [] ps)

-- The decoded report has all pairs of the distinct findings, as a set.
decoded_set :
    (version : Text) (audit_state : ℕ) (status : String) (hash : Text) (fs : List Finding)
    → (set : Pairs) × (from_uncompressed_report
          (produce_json version audit_state status hash (from_keys finding_eq [] fs))
        ≡ ok set)
      × ((q : String × ℕ) → member pair_eq q (pairs fs) ≡ true → member pair_eq q set ≡ true)
unfolding from_uncompressed_report produce_json report_pairs member
decoded_set version audit_state status hash fs =
    let gs = group [] (from_keys finding_eq [] fs) in
    (
      from_keys pair_eq [] (groups_pairs gs ++ []),
      rw (potential_pairs-to_vulnerabilities gs) refl,
      λ q h.
          let keys = member-keys q (groups_pairs gs ++ []) in
          let grouped = member-group q [] (from_keys finding_eq [] fs) in
          let whole = ap (member pair_eq q) (append-nil (groups_pairs gs)) in
          let distinct = member-from_keys-pairs q [] fs in
          ground (arith, keys, grouped, whole, distinct),
    )

member-intersection :
    (q : String × ℕ) (as_ bs : Pairs)
    → member pair_eq q (intersection as_ bs) ≡ (member pair_eq q as_ && member pair_eq q bs)
unfolding intersection member
member-intersection q [] bs = refl
member-intersection q (a ∷ as_) bs = ground (arith, member-intersection q as_ bs, pair_eq_iff q a)

text_eq_refl : (s : Text) → text_eq s s ≡ true
unfolding text_eq
text_eq_refl [] = refl
text_eq_refl (c ∷ s) = ground (arith, text_eq_refl s)

lower_upper : (s : Text) → map to_lower (map to_upper s) ≡ map to_lower s
unfolding to_lower to_upper
lower_upper [] = refl
lower_upper (c ∷ s) =
    let first : to_lower (to_upper c) ≡ to_lower c = ground arith in
    ap (λ (d : ℕ). d ∷ map to_lower (map to_upper s)) first
    ∙ ap (λ (t : Text). to_lower c ∷ t) (lower_upper s)

covered_similar :
    (auditor police : Pairs)
    → Distinct pair_eq pair_eq_iff police
    → ((q : String × ℕ) → member pair_eq q police ≡ true → member pair_eq q auditor ≡ true)
    → is_similar auditor police ≡ true
unfolding is_similar
covered_similar auditor police distinct covers =
    let le =
      length-le-of_subset pair_eq pair_eq_iff police (intersection auditor police) distinct
        (λ q m. let a = covers q m in ground (arith, member-intersection q auditor police)) in
    ground (arith, le)

some_text : (s : Text) → s ≢ [] → (length s == 0) ≡ false
some_text [] n = absurd (n refl)
some_text (c ∷ s) n = ground arith

compare_covered :
    (audit_report police_report : Report) (lowered : Text) (auditor police : Pairs)
    → map to_lower audit_report.contract_hash ≡ lowered
    → map to_lower police_report.contract_hash ≡ lowered
    → lowered ≢ []
    → from_uncompressed_report audit_report ≡ ok auditor
    → from_uncompressed_report police_report ≡ ok police
    → is_similar auditor police ≡ true
    → compare_reports audit_report police_report ≡ ok true
unfolding compare_reports
compare_covered audit_report police_report lowered auditor police a p n e f similar =
    rw a
      (rw p (rw (some_text lowered n) (rw (text_eq_refl lowered) (rw e (rw f (rw similar refl))))))

-- A police node accepts what covers its own report: a report that was compressed is deemed correct once
-- its text is on the chain, if the schema accepts what it is decoded to, the contract hashes are the
-- same up to case and not empty, and the report has each vulnerability, by type and start line, that
-- the police node found.
pub deemed_correct_covered :
    (types : VulnerabilityTypes) (validate : Report → Result Report)
    (report validated police_report : Report)
    → (text : Text) (v : Version) (auditor police : Pairs) → AreTypes types
    → parse_version report.version ≡ ok v
    → compress_report types report ≡ ok text
    → validate (
        produce_json
          (format_version v)
          report.audit_state
          report.status
          (map to_upper report.contract_hash)
          (distinct_findings (analyzers report)))
      ≡ ok validated
    → map to_lower police_report.contract_hash ≡ map to_lower report.contract_hash
    → map to_lower report.contract_hash ≢ []
    → from_uncompressed_report report ≡ ok auditor
    → from_uncompressed_report police_report ≡ ok police
    → ((q : String × ℕ) → member pair_eq q police ≡ true → member pair_eq q auditor ≡ true)
    → is_report_deemed_correct types validate (ok (some text)) police_report ≡ ok true
deemed_correct_covered types validate report validated police_report text v auditor police valid
      version written accepted hashes some_hash a p covers =
    let decoded =
      produce_json (format_version v) report.audit_state report.status
        (map to_upper report.contract_hash) (distinct_findings (analyzers report)) in
    let (set, e, has) =
      decoded_set (format_version v) report.audit_state report.status
        (map to_upper report.contract_hash) (report_findings (analyzers report)) in
    let similar =
      covered_similar set police (from_uncompressed-Distinct police_report police p)
        (λ q m. has q (sym (member-from_uncompressed report auditor q a) ∙ covers q m)) in
    deemed_correct-compare types validate text decoded validated police_report
      (decode-compress_report types report text v valid version written) accepted
    ∙ compare_covered decoded police_report (map to_lower report.contract_hash) set police
        (unfold produce_json in lower_upper report.contract_hash) hashes some_hash e p similar
