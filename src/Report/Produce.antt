-- ===== src/Report/Produce.antt =====
-- ReportEncoder.__produce_json: the decoded vulnerabilities, grouped by their types.
use qsp_protocol_node.Prelude.{ℕ, String, some, List, [], ◌∷◌, ◌++◌, if◌then◌else◌, str_eq, length}
use qsp_protocol_node.Evt.Decimal.{Text}
use qsp_protocol_node.Report.Json.{Instance, Vulnerability, Report}
use qsp_protocol_node.Report.Vulnerabilities.{Finding}

-- `vulnerability_group_names` with the instances of each name, in the order of first mention.
abbrev pub Groups : Type 0
Groups = List (String × List Instance)

mk_instance : List Instance → Finding → Instance
mk_instance instances f = record {
  ref_id = length instances;
  start_line = f.start_line;
  end_line = some f.end_line;
}

-- One round of the loop: a new name opens a group, and ids count from zero in each group.
unfoldable pub add_to_groups : Finding → Groups → Groups
unfolding mk_instance
add_to_groups f [] = (f.type, mk_instance [] f ∷ []) ∷ []
add_to_groups f ((name, instances) ∷ groups) =
    if str_eq name f.type
    then (name, instances ++ mk_instance instances f ∷ []) ∷ groups
    else (name, instances) ∷ add_to_groups f groups

unfoldable pub group : Groups → List Finding → Groups
unfolding add_to_groups
group groups [] = groups
group groups (f ∷ fs) = group (add_to_groups f groups) fs

abbrev pub to_vulnerability : String × List Instance → Vulnerability
to_vulnerability g = record { type = some g.0; file = "Unknown File"; instances = g.1 }

unfoldable pub to_vulnerabilities : Groups → List Vulnerability
to_vulnerabilities [] = []
to_vulnerabilities (g ∷ groups) = to_vulnerability g ∷ to_vulnerabilities groups

unfoldable pub produce_json : Text → ℕ → String → Text → List Finding → Report
unfolding group to_vulnerabilities
produce_json version audit_state status contract_hash vulnerabilities = record {
  version = version;
  audit_state = audit_state;
  status = status;
  contract_hash = contract_hash;
  analyzers_reports = some (
      record {
        status = status;
        analyzer = "Unknown Analyzer";
        potential_vulnerabilities = some (to_vulnerabilities (group [] vulnerabilities));
      }
      ∷ []);
}
