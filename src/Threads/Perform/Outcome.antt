-- ===== src/Threads/Perform/Outcome.antt =====
-- PerformAuditThread.__compute_audit_result (audit/threads/perform_audit_thread.py): the state of an
-- audit from the reports of its analyzers, and what is filled in where a report lacks it.
use qsp_protocol_node.Prelude.{
  ℕ, ◌≡◌, String, Bool, true, false, not, ◌&&◌, ◌||◌, Option, none, some, List, [], ◌∷◌, ◌++◌,
  arith, str_eq, if◌then◌else◌, ◌∙◌,
}
use qsp_protocol_node.Report.Json.{Vulnerability}

-- The report of one analyzer, as far as the node reads it; of its metadata, the name.
pub record LocalReport : Type 0 where
  pub analyzer : Option String
  pub status : Option String
  pub errors : List String
  pub potential_vulnerabilities : Option (List Vulnerability)

-- The two fail safe checks on the report of the analyzer `analyzer_name`.
abbrev with_name : String → LocalReport → LocalReport
with_name analyzer_name report = elim report.analyzer [
  | none ↦ record report { analyzer = some analyzer_name }
  | some name ↦ report
]

abbrev with_status : LocalReport → LocalReport
with_status report = elim report.status [
  | some status ↦ report
  | none ↦ record report {
    status = some "error";
    errors = report.errors ++ "Unknown error: cannot produce report" ∷ [];
  }
]

unfoldable pub fail_safe : String → LocalReport → LocalReport
fail_safe analyzer_name report = with_status (with_name analyzer_name report)

abbrev pub has_status : String → LocalReport → Bool
has_status status report = elim report.status [ none ↦ false | some s ↦ str_eq s status ]

-- The variables of the loop.
pub record Outcome : Type 0 where
  pub audit_state : ℕ
  pub audit_status : String
  pub has_successful_analyzer : Bool

unfoldable pub failed : Outcome → Outcome
failed o = record o { audit_state = 5; audit_status = "error" }

-- One round of the loop.
unfoldable pub compute_round : LocalReport → Outcome → Outcome
unfolding failed
compute_round report o =
    let o' = if has_status "error" report then failed o else o in
    if has_status "success" report then record o' { has_successful_analyzer = true } else o'

-- The loop over the reports, each with the name of its wrapper.
unfoldable pub compute_loop : List (String × LocalReport) → Outcome → Outcome
unfolding compute_round fail_safe
compute_loop [] o = o
compute_loop ((name, local_report) ∷ reports) o =
    compute_loop reports (compute_round (fail_safe name local_report) o)

unfoldable pub compute_audit_result : List (String × LocalReport) → ℕ × String
unfolding compute_loop failed
compute_audit_result reports =
    let o =
      compute_loop reports
        (record { audit_state = 4; audit_status = "success"; has_successful_analyzer = false }) in
    let result = if o.has_successful_analyzer then o else failed o in
    (result.audit_state, result.audit_status)

-- What decides: a report with no status counts as an error.
abbrev pub is_error : String × LocalReport → Bool
is_error (name, report) = elim report.status [ none ↦ true | some s ↦ str_eq s "error" ]

abbrev pub is_success : String × LocalReport → Bool
is_success (name, report) = has_status "success" report

unfoldable pub any : (String × LocalReport → Bool) → List (String × LocalReport) → Bool
any test [] = false
any test (r ∷ rs) = test r || any test rs

abbrev verdict : Bool → ℕ × String
verdict true = (4, "success")
verdict false = (5, "error")

-- A round sets what the whole loop sets for the one report.
round_lem :
    (name : String) (report : LocalReport) (o : Outcome)
    → compute_round (fail_safe name report) o ≡ (record {
      audit_state = if is_error (name, report) then 5 else o.audit_state;
      audit_status = if is_error (name, report) then "error" else o.audit_status;
      has_successful_analyzer = o.has_successful_analyzer || is_success (name, report);
    })
unfolding compute_round fail_safe
round_lem name report o = ground arith

loop_lem :
    (reports : List (String × LocalReport)) (o : Outcome)
    → compute_loop reports o ≡ (record {
      audit_state = if any is_error reports then 5 else o.audit_state;
      audit_status = if any is_error reports then "error" else o.audit_status;
      has_successful_analyzer = o.has_successful_analyzer || any is_success reports;
    })
unfolding compute_loop any
loop_lem [] o = ground arith
loop_lem ((name, report) ∷ reports) o =
    loop_lem reports (compute_round (fail_safe name report) o)
    ∙ rw (round_lem name report o) (ground arith)

-- An audit is a success exactly if some analyzer succeeded and none gave an error or lacks its
-- status, and is an error otherwise; the status goes with the state, whatever the order of the reports.
pub compute_audit_result_lem :
    (reports : List (String × LocalReport))
    → compute_audit_result reports ≡ (
        if any is_success reports && not (any is_error reports)
        then (4, "success")
        else (5, "error"))
unfolding compute_audit_result
compute_audit_result_lem reports =
    rw
      (loop_lem reports
        (record { audit_state = 4; audit_status = "success"; has_successful_analyzer = false }))
      (ground arith)
