-- ===== src/Report/Police.antt =====
-- VulnerabilitiesSet (audit/vulnerabilities_set.py) and SubmitReportThread.__is_report_deemed_correct
-- (audit/threads/submit_report_thread.py): a police node judges the report of an auditor. A contract
-- hash that is missing reads as the empty text.
pub mod Judged
pub mod Sets
pub mod Pairs
pub mod Covered
use qsp_protocol_node.Prelude.{
  ℕ, ◌+◌, ◌*◌, ◌≤◌, ◌≡◌, ◌≢◌, refl, String, Bool, true, false, not, ◌&&◌, ◌||◌, Option, none, some,
  List, [], ◌∷◌, ◌++◌, arith, map, if◌then◌else◌, leb, ◌==◌, str_eq, length, Result, ok, raise, Exn,
  key_error, other, ◌>>=◌, >>=-eq-ok, ok-injective, Bool-cases, Result-cases, inl, inr, ◌⊎◌, sym,
  ◌∙◌,
}
use qsp_protocol_node.Evt.Decimal.{Text}
use qsp_protocol_node.Report.Types.{VulnerabilityTypes}
use qsp_protocol_node.Report.Json.{Instance, Vulnerability, AnalyzerReport, Report}
use qsp_protocol_node.Report.Vulnerabilities.{from_keys, member, potential}
use qsp_protocol_node.Report.Compress.{decode_report, analyzers}

-- The pairs (type, start line) that the loops add.
abbrev pub Pairs : Type 0
Pairs = List (String × ℕ)

unfoldable pub instance_pairs : String → List Instance → Pairs
instance_pairs type [] = []
instance_pairs type (i ∷ instances) = (type, i.start_line) ∷ instance_pairs type instances

-- `vulnerability['type']` on a vulnerability that has none is a KeyError.
unfoldable pub potential_pairs : List Vulnerability → Result Pairs
unfolding instance_pairs
potential_pairs [] = ok []
potential_pairs (v ∷ vulnerabilities) = elim v.type [
  | none ↦ raise key_error
  | some type ↦ (do
    rest ← potential_pairs vulnerabilities
    ok (instance_pairs type v.instances ++ rest))
]

unfoldable pub report_pairs : List AnalyzerReport → Result Pairs
unfolding potential_pairs
report_pairs [] = ok []
report_pairs (report ∷ reports) = do
  pairs ← potential_pairs (potential report)
  rest ← report_pairs reports
  ok (pairs ++ rest)

abbrev pub pair_eq : String × ℕ → String × ℕ → Bool
pair_eq (type, line) (type', line') = str_eq type type' && line == line'

-- A set is a list of its members without repetitions.
unfoldable pub from_uncompressed_report : Report → Result Pairs
unfolding report_pairs
from_uncompressed_report report = do
  pairs ← report_pairs (analyzers report)
  ok (from_keys pair_eq [] pairs)

-- `a & b`
unfoldable pub intersection : Pairs → Pairs → Pairs
intersection [] bs = []
intersection (a ∷ as_) bs =
    if member pair_eq a bs then a ∷ intersection as_ bs else intersection as_ bs

-- `lower`, on the code points of ASCII.
unfoldable pub to_lower : ℕ → ℕ
to_lower c = if leb b'A' c && leb c b'Z' then c + 32 else c

unfoldable pub text_eq : Text → Text → Bool
text_eq [] [] = true
text_eq (c ∷ s) (d ∷ t) = c == d && text_eq s t
text_eq _ _ = false

-- `similarity >= .6`, for sets of less than 2 ^ 50 members: there the division of floats is at least
-- the float .6 exactly if five times the common members are at least three times those of the police.
unfoldable pub is_similar : Pairs → Pairs → Bool
unfolding intersection
is_similar auditor police =
    if length police == 0
    then true
    else leb (3 * length police) (5 * length (intersection auditor police))

-- The tests on the decoded report, where an exception from the auditor's report counts as no.
unfoldable pub compare_reports : Report → Report → Result Bool
unfolding is_similar from_uncompressed_report to_lower text_eq
compare_reports audit_report police_report =
    let audit_contract_hash = map to_lower audit_report.contract_hash in
    let police_contract_hash = map to_lower police_report.contract_hash in
    if length audit_contract_hash == 0
      || (length police_contract_hash == 0
          || not (text_eq audit_contract_hash police_contract_hash))
    then ok false
    else elim (from_uncompressed_report audit_report) [
      | raise e ↦ ok false
      | ok auditor_vulnerabilities ↦ (do
        police_vulnerabilities ← from_uncompressed_report police_report
        ok (is_similar auditor_vulnerabilities police_vulnerabilities))
    ]

-- The report of the chain, decoded and checked by the schema.
unfoldable pub decompressed : VulnerabilityTypes → (Report → Result Report) → Text → Result Report
decompressed types validate compressed = do
  report ← decode_report types compressed
  validated ← validate report
  ok report

-- `compressed` is what __get_report_in_blockchain gives, `validate` is __validate_json.
unfoldable pub is_report_deemed_correct :
    VulnerabilityTypes → (Report → Result Report) → Result (Option Text) → Report → Result Bool
unfolding decompressed compare_reports
is_report_deemed_correct types validate answer full_police_report = do
  compressed_audit_report ← answer
  elim compressed_audit_report [
    | none ↦ raise (other "Report not found")
    | some compressed ↦ elim (decompressed types validate compressed) [
      | raise e ↦ ok false
      | ok audit_report ↦ compare_reports audit_report full_police_report
    ]
  ]

text_eq-eq : (s t : Text) → text_eq s t ≡ true → s ≡ t
unfolding text_eq
text_eq-eq [] [] h = refl
text_eq-eq (c ∷ s) [] h = cc
text_eq-eq [] (d ∷ t) h = cc
text_eq-eq (c ∷ s) (d ∷ t) h = ground (arith, text_eq-eq s t)

-- What two reports have in common when the police node deems the one correct.
pub record Agree (audit_report police_report : Report) : Type 0 where
  pub hash_eq : map to_lower audit_report.contract_hash ≡ map to_lower police_report.contract_hash
  pub has_hash : length police_report.contract_hash ≢ 0
  pub auditor : Pairs
  pub police : Pairs
  pub auditor_eq : from_uncompressed_report audit_report ≡ ok auditor
  pub police_eq : from_uncompressed_report police_report ≡ ok police
  pub three_fifths : 3 * length police ≤ 5 * length (intersection auditor police)
