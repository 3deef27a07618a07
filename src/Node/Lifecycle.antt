-- ===== src/Node/Lifecycle.antt =====
-- The life of an event over a whole run of the node (audit/audit.py).
use qsp_protocol_node.Prelude.{ℕ, ◌≡◌, refl, Bool, true, false, some, arith, ◌∙◌}
use qsp_protocol_node.Evt.{Evt, Status, done, error}
use qsp_protocol_node.Evt.Codec.{Row, decode}
use qsp_protocol_node.Pool.Rows.{find, is_assigned, is_to_be_submitted, is_submitted}
use qsp_protocol_node.Pool.Rows.Unique.{UniqueIds}
use qsp_protocol_node.Pool.Manager.{close}
use qsp_protocol_node.Threads.Chain.{Config}
use qsp_protocol_node.Threads.Poll.{poll_requests, poll_audit_request}
use qsp_protocol_node.Node.{
  Node, rows_of, new_node, Step, poll, perform, submit, monitor, restart, Reach, here, next,
}
use qsp_protocol_node.Node.Writes.Handlers.{
  perform-Write, process_submission_request-Write, monitor_submission_timeout-Write,
  perform_targets, submit_targets, monitor_targets,
}
use qsp_protocol_node.Node.Rows.{IsSound-decode, IsSound}
use qsp_protocol_node.Node.Invariant.{Inv, find-Added}
use qsp_protocol_node.Node.Invariant.Polls.{poll_audit_request-Added, poll_police_request-Added}
use qsp_protocol_node.Node.Invariant.Steps.{
  performing-Taken, submitting-Taken, monitoring-Taken, performing_unattempted, monitoring_block,
  new_node-Inv, Reach-Inv,
}
use qsp_protocol_node.Node.Edges.{
  edge, Advances, unmoved, Taken-Advances, perform_edges, submit_edges, monitor_edges,
}
use qsp_protocol_node.Node.Restarts.{restart-Outlives, times_out-edge}

-- From a state that satisfies the invariant, every step of the node, whatever the contract, the
-- analyzers and the other threads do, keeps every request in the table and moves it along an edge.
pub step-Advances :
    (config : Config) (n n' : Node)
    → Inv n
    → Step config n n'
    → (id : ℕ) (row : Row) → find id (rows_of n) ≡ some row
    → Advances id row (rows_of n')
unfolding poll_requests close
step-Advances config n n' inv (poll answers block) id row h = unmoved id row _ (
    find-Added id row
      (poll_police_request-Added config answers block
        (poll_audit_request config answers block n.polling))
      (find-Added id row (poll_audit_request-Added config answers block n.polling) h))
step-Advances config n n' inv (perform r rest evt answers e d) id row h =
    Taken-Advances is_assigned perform_targets perform_edges r evt (performing-Taken inv d e)
      (perform-Write answers evt n.polling.pool (performing_unattempted inv d e)) id row h
step-Advances config n n' inv (submit r rest evt answers e d) id row h =
    Taken-Advances is_to_be_submitted submit_targets submit_edges r evt (submitting-Taken inv d e)
      (process_submission_request-Write answers evt n.polling.pool) id row h
step-Advances config n n' inv (monitor r rest evt answers limit e d) id row h =
    Taken-Advances is_submitted monitor_targets monitor_edges r evt (monitoring-Taken inv d e)
      (monitor_submission_timeout-Write evt n.polling.pool (monitoring_block inv d e).1 config
        answers limit)
      id row h
step-Advances config n n' inv (restart block pool e) id row h =
    let (row', f', e') = restart-Outlives config block _ pool inv.consistent e id row h in
    (row', f', times_out-edge row.fk_status row'.fk_status e')
step-Advances config n n' inv _ id row h = unmoved id row _ h

-- DN and ER, from which no edge leads on.
abbrev pub is_final : Status → Bool
is_final done = true
is_final error = true
is_final _ = false

final_edge : (s t : Status) → is_final s ≡ true → edge s t ≡ true → t ≡ s
final_edge s t h e = ground arith

-- In every run of a node that starts on a new database, a request that has reached DN or ER in
-- some state is in that same state ever after: the third rule of audit/audit.py, and the same for DN.
pub final_forever :
    (config : Config) (n m : Node)
    → Reach config new_node n
    → Reach config n m
    → (id : ℕ) (row : Row) → find id (rows_of n) ≡ some row
    → is_final row.fk_status ≡ true
    → (row' : Row) × (find id (rows_of m) ≡ some row') × (row'.fk_status ≡ row.fk_status)
final_forever config n m start here id row h f = (row, h, refl)
final_forever config n m start (next {m = k} r s) id row h f =
    let (row', h', same) = final_forever config n k start r id row h f in
    let inv = Reach-Inv config (Reach-Inv config new_node-Inv start) r in
    let (row'', h'', e) = step-Advances config k m inv s id row' h' in
    (row'', h'', final_edge row'.fk_status row''.fk_status (rw same f) e ∙ same)

-- In every run of a node that starts on a new database, the table has one row to a request: an
-- event is never saved twice, also not as an audit and as a police check.
pub saved_once : (config : Config) (n : Node) → Reach config new_node n → UniqueIds (rows_of n)
saved_once config n r = (Reach-Inv config new_node-Inv r).consistent.unique

-- In every run of a node that starts on a new database, every row of the table counts at most three
-- submission attempts, none while it is assigned, knows the block of its submission once it is to be submitted or
-- submitted, and decodes: no thread dies of a ValueError on it.
pub rows-IsSound :
    (config : Config) (n : Node)
    → Reach config new_node n
    → (id : ℕ) (row : Row) → find id (rows_of n) ≡ some row
    → IsSound row × ((evt : Evt) × (decode row ≡ some evt))
rows-IsSound config n r id row h =
    let s = (Reach-Inv config new_node-Inv r).consistent.sound id row h in (s, IsSound-decode row s)
