-- ===== src/Config/Analyzers.antt =====
-- ConfigUtils.create_analyzers (config/config_utils.py). The directory of the wrappers is fixed.
use Prim.Native.String.{◌++◌}
use qsp_protocol_node.Prelude.{
  pos, String, none, some, List, [], ◌∷◌, if◌then◌else◌, str_eq, Result, ok, raise, other, ◌>>=◌,
}
use qsp_protocol_node.Config.Values.{
  Value, text, num, sequence, mapping, Items, end, item, Entries, no_entries, entry, find_entry,
}

-- The arguments of a Wrapper.
pub record AnalyzerSettings : Type 0 where
  pub analyzer_name : String
  pub args : Value
  pub storage_dir : Value
  pub timeout_sec : Value

-- `d.get(key, default)`
unfoldable pub get_or : String → Value → Entries → Value
unfolding find_entry
get_or key default entries = elim (find_entry key entries) [ none ↦ default | some v ↦ v ]

-- The wrapper of an entry of the list, a dictionary by the name of the analyzer.
unfoldable pub create_analyzer : String → Value → Result AnalyzerSettings
unfolding get_or
create_analyzer default_storage (mapping (entry analyzer_name (mapping analyzer_config) others)) =
    ok (record {
      analyzer_name = analyzer_name;
      args = get_or "args" (text "") analyzer_config;
      storage_dir = get_or "storage_dir" (text default_storage) analyzer_config;
      timeout_sec = get_or "timeout_sec" (num (pos 60)) analyzer_config;
    })
create_analyzer default_storage (mapping no_entries) = raise (other "list index out of range")
create_analyzer default_storage _ = raise (other "no attribute")

-- The loop: an entry sets the default storage of those after it.
unfoldable pub create_each : String → String → Items → Result (List AnalyzerSettings)
unfolding create_analyzer
create_each home default_storage end = ok []
create_each home default_storage (item analyzer_config_dict items) = do
  analyzer ← create_analyzer default_storage analyzer_config_dict
  analyzers ← create_each home (home ++ "/." ++ analyzer.analyzer_name) items
  ok (analyzer ∷ analyzers)

unfoldable pub create_analyzers : String → String → Value → Result (List AnalyzerSettings)
unfolding create_each
create_analyzers home temp (sequence items) = create_each home temp items
create_analyzers home temp (mapping no_entries) = ok []
create_analyzers home temp (text s) =
    if str_eq s "" then ok [] else raise (other "no attribute 'keys'")
create_analyzers home temp _ = raise (other "not an iterable of dictionaries")
