-- ===== src/Node/Edges.antt =====
-- The ways between the states of an event, and that a thread takes only its own (audit/audit.py).
use mathlib.Core.Option.{some-injective}
use qsp_protocol_node.Prelude.{
  ℕ, ◌≡◌, Bool, true, false, some, List, arith, ap, sym, ◌∙◌, ◌==◌, Bool-cases, inl, inr, subst,
  ==_iff,
}
use qsp_protocol_node.Evt.{Evt, Status, assigned, to_be_submitted, submitted, done, error}
use qsp_protocol_node.Evt.Codec.{Row}
use qsp_protocol_node.Pool.Rows.{find, is_assigned, is_to_be_submitted, is_submitted}
use qsp_protocol_node.Node.Writes.{Write}
use qsp_protocol_node.Node.Writes.Handlers.{perform_targets, submit_targets, monitor_targets}
use qsp_protocol_node.Node.Rows.{moves, find-Write_own, find-Write_other}
use qsp_protocol_node.Node.Invariant.Steps.{Taken}

-- The ways that an event may go in one step. A resubmission takes SB back to TS.
abbrev pub edge : Status → Status → Bool
edge assigned assigned = true
edge assigned to_be_submitted = true
edge assigned error = true
edge to_be_submitted to_be_submitted = true
edge to_be_submitted submitted = true
edge to_be_submitted error = true
edge submitted submitted = true
edge submitted to_be_submitted = true
edge submitted done = true
edge submitted error = true
edge done done = true
edge error error = true
edge _ _ = false

edge_refl : (s : Status) → edge s s ≡ true
edge_refl s = ground arith

-- The request is still in the table, in a state that is one edge further.
abbrev pub Advances : ℕ → Row → List Row → Type 0
Advances id row rows' =
    (row' : Row) × (find id rows' ≡ some row') × (edge row.fk_status row'.fk_status ≡ true)

pub unmoved :
    (id : ℕ) (row : Row) (rows' : List Row) → find id rows' ≡ some row → Advances id row rows'
unmoved id row rows' h = (row, h, edge_refl row.fk_status)

-- A write to an event that a thread took moves that event along an edge, and no other event.
pub Taken-Advances :
    (test allowed : Status → Bool)
    → ((s t : Status) → test s ≡ true → moves allowed s t ≡ true → edge s t ≡ true)
    → {rows rows' : List Row} (taken : Row) (evt : Evt) → Taken test rows taken evt
    → Write allowed evt rows rows'
    → (id : ℕ) (row : Row) → find id rows ≡ some row
    → Advances id row rows'
Taken-Advances test allowed edges {rows} {rows'} taken evt t w id row h =
    elim (Bool-cases (evt.request_id == id)) [
      | inl e ↦
          let same : evt.request_id ≡ id = (==_iff evt.request_id id).0 e in
          let (row', found', moved) = find-Write_own taken w t.found t.attempts in
          let r : taken ≡ row =
            some-injective taken row (sym t.found ∙ ap (λ k. find k rows) same ∙ h) in
          subst (λ r. Advances id r rows') r
            (
              row',
              ap (λ k. find k rows') (sym same) ∙ found',
              edges taken.fk_status row'.fk_status t.held.1 moved.along,
            )
      | inr e ↦ unmoved id row rows' (find-Write_other id w e ∙ h)
    ]

pub perform_edges :
    (s t : Status) → is_assigned s ≡ true → moves perform_targets s t ≡ true → edge s t ≡ true
perform_edges s t h m = ground arith

pub submit_edges :
    (s t : Status) → is_to_be_submitted s ≡ true → moves submit_targets s t ≡ true → edge s t ≡ true
submit_edges s t h m = ground arith

pub monitor_edges :
    (s t : Status) → is_submitted s ≡ true → moves monitor_targets s t ≡ true → edge s t ≡ true
monitor_edges s t h m = ground arith
