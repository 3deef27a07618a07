-- ===== src/Node.antt =====
-- The node as its threads interleave: audit/audit.py over audit/threads/*.py. A thread reads its
-- events by one select and then handles them one after the other; between any two of these the
-- other threads go on. A handler's answers from outside are whatever they are, and its one write
-- to the database is the moment at which it takes effect.
pub mod Writes
pub mod Rows
pub mod Owned
pub mod Invariant
pub mod Edges
pub mod Restarts
pub mod Lifecycle
pub mod Completes
pub mod Start
pub mod Stopping
use qsp_protocol_node.Prelude.{
  ℕ, ◌≡◌, Bool, true, false, Option, none, some, List, [], ◌∷◌, Result, ok,
}
use qsp_protocol_node.Evt.{Evt}
use qsp_protocol_node.Evt.Codec.{Row, decode}
use qsp_protocol_node.Pool.Manager.{
  Pool, close, get_events_to_be_processed, get_events_to_be_submitted, get_events_to_be_monitored,
}
use qsp_protocol_node.Threads.Chain.{Config}
use qsp_protocol_node.Threads.Poll
use qsp_protocol_node.Threads.Poll.{Polling, poll_requests}
use qsp_protocol_node.Threads.Perform
use qsp_protocol_node.Threads.Perform.{process_audit_request}
use qsp_protocol_node.Threads.Submit
use qsp_protocol_node.Threads.Submit.{process_submission_request}
use qsp_protocol_node.Threads.Monitor
use qsp_protocol_node.Threads.Monitor.{monitor_submission_timeout}
use qsp_protocol_node.Threads.Restart.{timeout_stale_requests}

-- The state of the polling thread with the database, and for each of the other threads the rows
-- of its last select that it has not handled yet.
pub record Node : Type 0 where
  pub polling : Polling
  pub performing : List Row
  pub submitting : List Row
  pub monitoring : List Row

abbrev pub rows_of : Node → List Row
rows_of n = n.polling.pool.rows

abbrev pub with_pool : Node → Pool → Polling
with_pool n pool = record n.polling { pool = pool }

-- A node whose database has just been created.
abbrev pub new_node : Node
new_node = record {
  polling = record {
    is_police_officer_cached = none;
    pool = record { rows = []; closed = false };
    sent = [];
  };
  performing = [];
  submitting = [];
  monitoring = [];
}

pub data Step (config : Config) (n : Node) : Node → Type 0 where
  -- A block was mined and the polling thread runs.
  poll :
      (answers : Poll.Answers) (block : ℕ)
      → Step config n (record n { polling = poll_requests config answers block n.polling })
  -- The other threads read their events when they are through with those of the last round.
  select_performing :
      n.performing ≡ []
      → Step config n (record n { performing = get_events_to_be_processed n.polling.pool })
  select_submitting :
      n.submitting ≡ []
      → Step config n (record n { submitting = get_events_to_be_submitted n.polling.pool })
  select_monitoring :
      n.monitoring ≡ []
      → Step config n (record n { monitoring = get_events_to_be_monitored n.polling.pool })
  -- They handle the next event.
  perform :
      (row : Row) (rest : List Row) (evt : Evt) (answers : Perform.Answers)
      → n.performing ≡ row ∷ rest
      → decode row ≡ some evt
      → Step config n (record n {
        polling = with_pool n (process_audit_request answers evt n.polling.pool);
        performing = rest;
      })
  submit :
      (row : Row) (rest : List Row) (evt : Evt) (answers : Submit.Answers)
      → n.submitting ≡ row ∷ rest
      → decode row ≡ some evt
      → Step config n (record n {
        polling = with_pool n (process_submission_request answers evt n.polling.pool);
        submitting = rest;
      })
  monitor :
      (row : Row) (rest : List Row) (evt : Evt) (answers : Monitor.Answers) (timeout_limit : ℕ)
      → n.monitoring ≡ row ∷ rest
      → decode row ≡ some evt
      → Step config n (record n {
        polling =
            with_pool n
              (monitor_submission_timeout config answers timeout_limit evt n.polling.pool);
        monitoring = rest;
      })
  -- `stop` closes the database; what the threads still write is dropped.
  stop : Step config n (record n { polling = with_pool n (close n.polling.pool) })
  -- The process is started again: what the threads held is lost, and stale requests time out.
  restart :
      (block : ℕ) (pool : Pool)
      → timeout_stale_requests config block (record n.polling.pool { closed = false }) ≡ ok pool
      → Step config n (record {
        polling = record { is_police_officer_cached = none; pool = pool; sent = [] };
        performing = [];
        submitting = [];
        monitoring = [];
      })

pub data Reach (config : Config) (n : Node) : Node → Type 0 where
  here : Reach config n n
  next : {m k : Node} → Reach config n m → Step config m k → Reach config n k
