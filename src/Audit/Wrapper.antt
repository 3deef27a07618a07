-- ===== src/Audit/Wrapper.antt =====
-- Wrapper and Analyzer (audit/wrapper.py, audit/analyzer.py): a script runs as a process and its
-- output is read. The processes and `json.loads` are parameters.
use qsp_protocol_node.Prelude.{ℕ, String, Option, none, some, List, ◌∷◌}
use qsp_protocol_node.Threads.Perform.Outcome.{LocalReport}

-- How a run of a script ends: its output, a time-out, or another exception, by what it says.
pub data Run : Type 0 where
  stdout : String → Run
  timeout_expired : Run
  failed : String → Run

-- What a wrapper is made from. `append` is the concatenation of strings.
pub record Wrapper : Type 0 where
  pub analyzer_name : String
  pub home : String
  pub args : String
  pub storage_dir : String
  pub timeout_sec : ℕ

-- The environment of a script, by the variables that are set.
abbrev pub Environment : Type 0
Environment = List (String × String)

unfoldable pub get_base_environment : Wrapper → Environment → Environment
get_base_environment wrapper environ =
    ("STORAGE_DIR", wrapper.storage_dir)
    ∷ ("WRAPPER_HOME", wrapper.home)
    ∷ ("ANALYZER_NAME", wrapper.analyzer_name)
    ∷ ("ANALYZER_ARGS", wrapper.args)
    ∷ environ

-- A variable that is set later stands first. `basename` is `os.path.basename`.
unfoldable pub get_full_environment :
    (String → String) → Wrapper → Environment → String → String → Environment
unfolding get_base_environment
get_full_environment basename wrapper environ contract_path original_file_name =
    ("CONTRACT_PATH", contract_path)
    ∷ ("CONTRACT_FILE_NAME", basename contract_path)
    ∷ ("ORIGINAL_FILE_NAME", original_file_name)
    ∷ get_base_environment wrapper environ

-- What a check gives its caller: a report, or the exception that it raises again.
pub data Checked : Type 0 where
  reported : LocalReport → Checked
  expired : Checked
  raised : String → Checked

-- `json.loads`, where the error is what the exception says.
pub data Loaded : Type 0 where
  loaded : LocalReport → Loaded
  malformed : String → Loaded

-- Wrapper.check and Analyzer.check: the exit status of the script does not matter.
unfoldable pub check : (String → Loaded) → Run → Checked
check loads (stdout text) = elim (loads text) [
  | loaded report ↦ reported report
  | malformed e ↦ raised e
]
check loads timeout_expired = expired
check loads (failed e) = raised e

-- Wrapper.get_metadata, by the name in the metadata: whatever fails, the name of the wrapper stands.
unfoldable pub get_metadata : (String → Option String) → Wrapper → Run → String
get_metadata loads wrapper (stdout text) = elim (loads text) [
  | none ↦ wrapper.analyzer_name
  | some name ↦ name
]
get_metadata loads wrapper timeout_expired = wrapper.analyzer_name
get_metadata loads wrapper (failed e) = wrapper.analyzer_name
