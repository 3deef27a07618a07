-- ===== src/Threads/Submit/Check.antt =====
-- SubmitReportThread.__check_report and __get_report_in_blockchain
-- (audit/threads/submit_report_thread.py): a police node takes the report of the auditor from the
-- chain, where it stands as bytes. `json.loads` and the schema are parameters.
pub mod Covered
use qsp_protocol_node.Prelude.{
  ℕ, ◌+◌, ◌-◌, ◌/◌, ◌%◌, String, Bool, Option, none, some, List, [], ◌∷◌, if◌then◌else◌, ltb,
  Result, ok, raise, other, ◌>>=◌,
}
use qsp_protocol_node.Evt.{Evt}
use qsp_protocol_node.Evt.Decimal.{Text}
use qsp_protocol_node.Report.Types.{VulnerabilityTypes}
use qsp_protocol_node.Report.Json.{Report}
use qsp_protocol_node.Report.Police.{is_report_deemed_correct}

abbrev pub Bytes : Type 0
Bytes = List ℕ

-- `bytes.hex`, which writes the digits in lower case.
unfoldable pub lower_digit : ℕ → ℕ
lower_digit d = if ltb d 10 then b'0' + d else b'a' + (d - 10)

unfoldable pub hex : Bytes → Text
unfolding lower_digit
hex [] = []
hex (b ∷ bytes) = lower_digit (b / 16) ∷ lower_digit (b % 16) ∷ hex bytes

-- `answer` is what getReport gives.
unfoldable pub get_report_in_blockchain : Result (Option Bytes) → Result (Option Text)
unfolding hex
get_report_in_blockchain answer = do
  compressed_report_bytes ← answer
  elim compressed_report_bytes [
    | none ↦ ok none
    | some bytes ↦ elim bytes [ [] ↦ ok none | b ∷ rest ↦ ok (some (hex (b ∷ rest))) ]
  ]

-- `json.loads` of the event's report, which None is not.
unfoldable pub check_report :
    VulnerabilityTypes
    → (Report → Result Report)
    → (String → Result Report)
    → Result (Option Bytes)
    → Evt
    → Result Bool
unfolding get_report_in_blockchain is_report_deemed_correct
check_report types validate loads answer evt = do
  police_report ← elim evt.full_report [
    | none ↦ raise (other "the JSON object must be str")
    | some text ↦ loads text
  ]
  is_report_deemed_correct types validate (get_report_in_blockchain answer) police_report
