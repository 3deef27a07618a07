-- ===== src/Audit/Compilation.antt =====
-- PerformAuditThread.check_compilation (audit/threads/perform_audit_thread.py). The compiler
-- (compile_standard) is a parameter.
use qsp_protocol_node.Prelude.{
  String, Option, none, some, List, [], ◌∷◌, ◌++◌, if◌then◌else◌, str_eq,
}

-- An entry of `output["errors"]`; a key that is missing is none.
pub record Message : Type 0 where
  pub severity : Option String
  pub formatted_message : Option String

-- What compile_standard does: its messages, or an exception, by what it says. ContractsNotFound,
-- SolcError and every other exception are recorded alike; a KeyError is only logged.
pub data Compiled : Type 0 where
  output : List Message → Compiled
  key_error : Compiled
  failed : String → Compiled

pub record Messages : Type 0 where
  pub warnings : List String
  pub errors : List String

-- The entry as the loop reads it: none is the KeyError of a missing key.
unfoldable pub add_message : (String → String) → Message → Messages → Option Messages
add_message rename err m = elim err.severity [
  | none ↦ none
  | some severity ↦ elim err.formatted_message [
    | none ↦ none
    | some text ↦
        if str_eq severity "warning"
        then some (record m { warnings = m.warnings ++ rename text ∷ [] })
        else some (record m { errors = m.errors ++ rename text ∷ [] })
  ]
]

-- The loop; a KeyError ends it and is logged, and what was collected stays.
unfoldable pub add_messages : (String → String) → List Message → Messages → Messages
unfolding add_message
add_messages rename [] m = m
add_messages rename (err ∷ errs) m = elim (add_message rename err m) [
  | none ↦ m
  | some m' ↦ add_messages rename errs m'
]

-- `rename` replaces the temporary file's name in a message by the original one.
unfoldable pub check_compilation : (String → String) → Compiled → Messages
unfolding add_messages
check_compilation rename (output errs) =
    add_messages rename errs (record { warnings = []; errors = [] })
check_compilation rename key_error = record { warnings = []; errors = [] }
check_compilation rename (failed e) = record { warnings = []; errors = e ∷ [] }
