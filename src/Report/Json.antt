-- ===== src/Report/Json.antt =====
-- The parts of a report (plugins/analyzers/schema/analyzer_integration.json) that the encoder
-- reads or the decoder writes; a key that may be missing is an Option. The schema has every line
-- number at least 0.
use qsp_protocol_node.Prelude.{ℕ, String, Option, List}
use qsp_protocol_node.Evt.Decimal.{Text}

pub record Instance : Type 0 where
  pub ref_id : ℕ
  pub start_line : ℕ
  pub end_line : Option ℕ

pub record Vulnerability : Type 0 where
  pub type : Option String
  pub file : String
  pub instances : List Instance

pub record AnalyzerReport : Type 0 where
  pub status : String
  pub analyzer : String
  pub potential_vulnerabilities : Option (List Vulnerability)

pub record Report : Type 0 where
  pub version : Text
  pub audit_state : ℕ
  pub status : String
  pub contract_hash : Text
  pub analyzers_reports : Option (List AnalyzerReport)
