-- ===== src/Node/Restarts.antt =====
-- What the time-outs of a restart do to an event (audit/audit.py).
use mathlib.Core.Option.{some-injective}
use qsp_protocol_node.Prelude.{
  ℕ, ◌≡◌, Bool, true, false, some, List, [], ◌∷◌, arith, ap, sym, ◌∙◌, ◌==◌, Bool-cases, inl, inr,
  subst, ok, >>=-eq-ok, ok-injective, ==_iff,
}
use qsp_protocol_node.Evt.{Evt, Status, assigned, to_be_submitted, error}
use qsp_protocol_node.Evt.Codec.{Row}
use qsp_protocol_node.Pool.Rows.{find, is_assigned, is_to_be_submitted}
use qsp_protocol_node.Pool.Manager.{
  Pool, decode_row, process_evts, get_events_to_be_processed, get_events_to_be_submitted,
}
use qsp_protocol_node.Threads.Chain.{Config}
use qsp_protocol_node.Threads.Restart.{timeout_event, timeout_stale_requests}
use qsp_protocol_node.Node.Writes.{Write}
use qsp_protocol_node.Node.Writes.Handlers.{timeout_event-Write, restart_targets}
use qsp_protocol_node.Node.Rows.{moves, find-Write_own, find-Write_other}
use qsp_protocol_node.Node.Owned.{Owned, Owned-rest}
use qsp_protocol_node.Node.Invariant.{IsConsistent}
use qsp_protocol_node.Node.Invariant.Steps.{Taken, take_lem, process_evts-IsConsistent, read-Owned}
use qsp_protocol_node.Node.Edges.{edge}

-- What a restart does to an event: it stays, or one that is not submitted yet times out.
abbrev pub times_out : Status → Status → Bool
times_out assigned error = true
times_out to_be_submitted error = true
times_out s t = moves (λ _. false) s t

times_out_trans :
    (s t u : Status) → times_out s t ≡ true → times_out t u ≡ true → times_out s u ≡ true
times_out_trans s t u h k = ground arith

pub times_out-edge : (s t : Status) → times_out s t ≡ true → edge s t ≡ true
times_out-edge s t h = ground arith

abbrev pub Outlives : ℕ → Row → List Row → Type 0
Outlives id row rows' =
    (row' : Row) × (find id rows' ≡ some row') × (times_out row.fk_status row'.fk_status ≡ true)

-- The rows that the loops of a restart go over are assigned or to be submitted.
abbrev Stale : (Status → Bool) → Type 0
Stale test =
    (s t : Status) → test s ≡ true → moves restart_targets s t ≡ true → times_out s t ≡ true

Stale-assigned : Stale is_assigned
Stale-assigned s t h m = ground arith

Stale-to_be_submitted : Stale is_to_be_submitted
Stale-to_be_submitted s t h m = ground arith

timeout-Outlives :
    (test : Status → Bool) (stale : Stale test) {rows rows' : List Row} (taken : Row) (evt : Evt)
    → Taken test rows taken evt
    → Write restart_targets evt rows rows'
    → (id : ℕ) (row : Row) → find id rows ≡ some row
    → Outlives id row rows'
timeout-Outlives test stale {rows} {rows'} taken evt t w id row h =
    elim (Bool-cases (evt.request_id == id)) [
      | inl e ↦
          let same : evt.request_id ≡ id = (==_iff evt.request_id id).0 e in
          let (row', found', moved) = find-Write_own taken w t.found t.attempts in
          let r : taken ≡ row =
            some-injective taken row (sym t.found ∙ ap (λ k. find k rows) same ∙ h) in
          subst (λ r. Outlives id r rows') r
            (
              row',
              ap (λ k. find k rows') (sym same) ∙ found',
              stale taken.fk_status row'.fk_status t.held.1 moved.along,
            )
      | inr e ↦ (row, find-Write_other id w e ∙ h, ground arith)
    ]

process_evts-Outlives :
    (config : Config) (block : ℕ) (test : Status → Bool) (stale : Stale test) (held : List Row)
    (pool pool' : Pool)
    → Owned test pool.rows held
    → process_evts (timeout_event config block) held pool ≡ ok pool'
    → (id : ℕ) (row : Row) → find id pool.rows ≡ some row
    → Outlives id row pool'.rows
unfolding process_evts
process_evts-Outlives config block test stale [] pool pool' o h id row f =
    (row, subst (λ (p : Pool). find id p.rows ≡ some row) (ok-injective h) f, ground arith)
process_evts-Outlives config block test stale (r ∷ held) pool pool' o h id row f =
    let (evt, e, h₁) = >>=-eq-ok (decode_row r) _ h in
    let t = take_lem test pool.rows r held evt o (unfold decode_row in ground arith) in
    let w = timeout_event-Write config block evt pool in
    let (m, fm, em) = timeout-Outlives test stale r evt t w id row f in
    let (row', f', e') =
      process_evts-Outlives config block test stale held (timeout_event config block evt pool) pool'
        (Owned-rest test r held t.id w o) h₁ id m fm in
    (row', f', times_out_trans row.fk_status m.fk_status row'.fk_status em e')

-- A restart that goes through keeps every request in the table: its state is the same, or it was
-- assigned or to be submitted and is now in error.
pub restart-Outlives :
    (config : Config) (block : ℕ) (pool pool' : Pool)
    → IsConsistent pool.rows
    → timeout_stale_requests config block pool ≡ ok pool'
    → (id : ℕ) (row : Row) → find id pool.rows ≡ some row
    → Outlives id row pool'.rows
unfolding timeout_stale_requests get_events_to_be_processed get_events_to_be_submitted
restart-Outlives config block pool pool' c h id row f =
    let (middle, e, h₁) =
      >>=-eq-ok (process_evts (timeout_event config block) (get_events_to_be_processed pool) pool) _
        h in
    let o = read-Owned is_assigned pool.closed pool.rows c.unique in
    let (m, fm, em) =
      process_evts-Outlives config block is_assigned Stale-assigned _ pool middle o e id row f in
    let cm = process_evts-IsConsistent config block is_assigned _ pool middle c o e in
    let (row', f', e') =
      process_evts-Outlives config block is_to_be_submitted Stale-to_be_submitted _ middle pool'
        (read-Owned is_to_be_submitted middle.closed middle.rows cm.unique) h₁ id m fm in
    (row', f', times_out_trans row.fk_status m.fk_status row'.fk_status em e')
