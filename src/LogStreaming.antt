-- ===== src/LogStreaming.antt =====
-- The stream loggers (log_streaming/__init__.py). structlog is outside: `handlers` are the names of
-- the loggers to which a handler of a provider has been added, one entry for each.
use qsp_protocol_node.Prelude.{
  String, Bool, false, not, ◌&&◌, ◌||◌, List, [], ◌∷◌, if◌then◌else◌, str_eq, Result, ok, raise,
  other, ◌>>=◌,
}
use qsp_protocol_node.Report.Vulnerabilities.{member}
use qsp_protocol_node.Config.Values.{Value, nothing, flag, mapping, Entries, is_true, is_none}
use qsp_protocol_node.Config.Analyzers.{get_or}
use qsp_protocol_node.Config.Client.{is_text}

pub record Streaming : Type 0 where
  pub account : Value
  pub config : Value
  pub stream_loggers : List String
  pub handlers : List String

abbrev pub not_initialized : Streaming
not_initialized = record { account = nothing; config = nothing; stream_loggers = []; handlers = [] }

-- The configuration can be set once, or again with `force`, which forgets the loggers.
unfoldable pub initialize : Value → Value → Bool → Streaming → Result Streaming
initialize account config force s =
    if (not (is_none s.config) || not (is_none s.account)) && not force
    then raise (other "stream_logger configuration can only be set once")
    else ok (record s { account = account; config = config; stream_loggers = [] })

-- `provider` is what the constructor of CloudWatchProvider does with its arguments.
unfoldable pub create_streaming_provider : Result (Unit {0}) → Value → Result (Unit {0})
create_streaming_provider provider provider_name =
    if is_text provider_name "CloudWatchProvider"
    then provider
    else raise (other "Unknown/Unsupported streaming provider")

-- A new stream logger is given its handler.
unfoldable pub add_logger : Result (Unit {0}) → String → Entries → Streaming → Result Streaming
unfolding create_streaming_provider get_or
add_logger provider logger_name config s = do
  created ← create_streaming_provider provider (get_or "provider" nothing config)
  ok (record s {
    stream_loggers = logger_name ∷ s.stream_loggers;
    handlers = logger_name ∷ s.handlers;
  })

unfoldable pub get_logger : Result (Unit {0}) → String → Streaming → Result Streaming
unfolding add_logger is_true get_or member
get_logger provider logger_name s = elim s.config [
  | nothing ↦ ok s
  | mapping config ↦
      if not (is_true (get_or "is_enabled" (flag false) config))
        || member str_eq logger_name s.stream_loggers
      then ok s
      else add_logger provider logger_name config s
  | _ ↦ raise (other "no attribute 'get'")
]
