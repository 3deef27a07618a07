-- ===== src/Lib.antt =====
-- The QSP audit node (src/qsp_protocol_node): it polls the audit contract for requests, has the
-- requested contracts audited, submits the reports to the chain and sees that they are confirmed.
-- Its threads share one table of events. A thread reads the events that are in its state, handles
-- them one after the other, and writes each to its next state:
--
--   polling    ->  AS  (assigned)
--   performing AS  ->  TS  (to be submitted) or ER (error)
--   submitting TS  ->  SB  (submitted) or ER
--   monitoring SB  ->  DN  (done), TS again, or ER
--
-- Prelude    the names, tests and lemmas that are shared; Python's exceptions as values.
-- Evt        evt/evt.py and the columns of evt/createdb.sql: an event. Evt/Codec is the codec of the
--            manager (__encode, __decode), Evt/Decimal `str` and `int`.
-- Pool       evt/evt_pool_manager.py and evt/*.sql. Pool/Rows has the queries over the list of rows,
--            Pool/Manager one function for each method. A write is dropped, and a read is empty, after
--            `close`, as the worker of the database does.
-- Threads    audit/threads/*.py: Poll (poll_requests_thread), Perform (perform_audit_thread), Submit
--            (submit_report_thread), Monitor (monitor_submission_thread), Restart (the time-outs of
--            audit/audit.py), GasPrice and Rewards. A handler maps the table to the table; what the
--            contract, web3 and the analyzers answer is an argument, a value or an exception, and each
--            `except` clause is a clause of a function `recovered`. Loops has the loops that call them
--            (qsp_thread).
-- Node       audit/audit.py: the threads as a step relation. A step is a round of polling, a select of
--            one of the other threads, the handling of one event that it holds, a stop or a restart;
--            Reach is any sequence of steps. Node/Writes says which write each handler comes to,
--            Node/Rows what a write does to a row, Node/Owned which events a thread may move, Node/Invariant
--            has the invariant, Node/Lifecycle the life of an event over a run.
--            Node/Start is `start` up to the threads, Node/Stopping `stop` and the health check,
--            Node/Completes a run from a request to its end.
-- Audit      audit/threads/perform_audit_thread.py before its handler, audit/wrapper.py and
--            audit/analyzer.py: Compilation (check_compilation), Wrapper (the runs of the scripts),
--            Analyzers (get_audit_report_from_analyzers, where an analyzer is what the calling thread
--            finds after join) and Performed (get_full_report, audit). Threads/Perform takes its result.
-- Worker     utils/db/sql3liteworker.py: the queue, the results and the flags of the database's thread,
--            with any database. Worker/Order has the threads that use it as a step relation.
-- Config     config/config.py and config/config_utils.py: Values (what yaml.load gives, config_value),
--            Settings (__setup_values), Client (the provider and the web3 client), Checks, Analyzers
--            (create_analyzers) and Components (__create_components, load_dictionary).
-- Upload     upload/*.py and the choice of a provider.
-- LogStreaming, Main   log_streaming/__init__.py; the run and the exit code of __main__.py.
-- Report     audit/report_processing.py: bits (Bits, Hex), header, types, vulnerabilities, and the whole
--            (Compress, Produce). A bitstring is a list of Booleans. Police is the judgement of a police
--            node (submit_report_thread, audit/vulnerabilities_set.py), Threads/Submit/Check how it comes
--            by the report on the chain.
-- Eth        utils/eth/tx.py: the arguments, retries and the wait for confirmations. Lock is
--            utils/eth/singleton_lock.py, with any number of threads that come in at once.
-- Stop       utils/stop.py: the registry of the objects that are stopped, and the signals.
-- Tests      runs on concrete inputs.
--
-- Numbers are natural: block numbers, prices and line numbers are never negative, and a difference
-- of two of them is compared with one side moved over. The settings and the price of gas are
-- integers. The database holds block numbers and the price as text. A text that is only stored is a
-- String; one that is computed with is a list of code points.
--
-- Fuel: the decoder of vulnerabilities takes bits away in each round and has one round for each bit.
-- The wait for confirmations and the rewards loop depend on the chain; they take fuel and say by none
-- that it ran out. The attempts to connect are counted down from their maximum, and a round of the
-- worker takes one entry of its queue. A handler writes once at most, so that it is one step; a
-- thread's select and its handling of each event are separate steps, between which all other
-- threads run.
--
-- Not modelled: metrics, the set-up of logging, the processes that run analyzers and what they
-- print, the validation by jsonschema, and the parsing of YAML, which are input and output or calls
-- of other libraries; of utils/eth/tx.py the functions that stand in for ones of web3; of the
-- database worker the exceptions of a query that are not apsw.Error, which end its thread.
pub mod Prelude
pub mod Evt
pub mod Pool
pub mod Threads
pub mod Node
pub mod Report
pub mod Eth
pub mod Worker
pub mod Audit
pub mod Config
pub mod Upload
pub mod LogStreaming
pub mod Main
pub mod Stop
mod Tests
