-- ===== src/Audit/Analyzers.antt =====
-- PerformAuditThread.get_audit_report_from_analyzers (audit/threads/perform_audit_thread.py): each
-- analyzer runs in a thread of its own, and the calling thread collects what they have written.
use qsp_protocol_node.Prelude.{
  String, Bool, true, false, ◌||◌, Option, none, some, List, [], ◌∷◌, ◌++◌, if◌then◌else◌,
}
use qsp_protocol_node.Report.Json.{AnalyzerReport}
use qsp_protocol_node.Threads.Perform.Outcome.{LocalReport, fail_safe}
use qsp_protocol_node.Audit.Wrapper.{Wrapper, Checked, reported, expired, raised}

-- What a thread and the calling thread share for each analyzer.
pub record Shared : Type 0 where
  pub report : LocalReport
  pub timed_out : Bool

abbrev pub no_report : LocalReport
no_report = record { analyzer = none; status = none; errors = []; potential_vulnerabilities = none }

-- The initial values.
abbrev pub unwritten : Shared
unwritten = record { report = no_report; timed_out = false }

-- check_contract: what a thread writes. What an exception says goes into a list of errors that the
-- report does not have, and so is lost.
unfoldable pub check_contract : Checked → Shared
check_contract (reported report) = record { report = report; timed_out = false }
check_contract expired = record {
  report = record no_report { status = some "error" };
  timed_out = true;
}
check_contract (raised e) = record {
  report = record no_report { status = some "error" };
  timed_out = false;
}

-- An analyzer as the calling thread finds it after `join`: whether its thread has written what
-- `checked` gives, whether it is still alive, and what get_metadata gives.
pub record Joined : Type 0 where
  pub wrapper : Wrapper
  pub checked : Checked
  pub has_written : Bool
  pub is_alive : Bool
  pub metadata : String

-- The text that tells of a time-out is formatted by Python.
unfoldable pub collect : (Wrapper → String) → Joined → LocalReport
unfolding check_contract
collect time_out_text joined =
    let shared = if joined.has_written then check_contract joined.checked else unwritten in
    let named = record shared.report { analyzer = some joined.metadata } in
    if shared.timed_out || joined.is_alive
    then record named {
      errors = named.errors ++ time_out_text joined.wrapper ∷ [];
      status = some "timeout";
    }
    else named

unfoldable pub collect_all : (Wrapper → String) → List Joined → List (String × LocalReport)
unfolding collect
collect_all time_out_text [] = []
collect_all time_out_text (joined ∷ rest) =
    (joined.wrapper.analyzer_name, collect time_out_text joined) ∷ collect_all time_out_text rest

-- `__compute_audit_result` fills in what is missing in the reports themselves.
unfoldable pub repaired : List (String × LocalReport) → List LocalReport
repaired [] = []
repaired ((name, report) ∷ reports) = fail_safe name report ∷ repaired reports

abbrev or_empty : Option String → String
or_empty none = ""
or_empty (some s) = s

-- The keys of a local report that stand in the report of the node.
unfoldable pub as_analyzer_report : LocalReport → AnalyzerReport
as_analyzer_report report = record {
  status = or_empty report.status;
  analyzer = or_empty report.analyzer;
  potential_vulnerabilities = report.potential_vulnerabilities;
}
