-- ===== src/Node/Invariant.antt =====
-- The invariant of the node, and that every step keeps it.
pub mod Polls
pub mod Steps
use mathlib.Core.Option.{some-injective, or_else}
use qsp_protocol_node.Prelude.{
  ℕ, ◌+◌, ◌≤◌, ◌≡◌, refl, Bool, true, false, Option, none, some, List, [], ◌∷◌, arith, ap, sym, ◌∙◌,
  ◌==◌, ◌≢◌, Bool-cases, ◌⊎◌, inl, inr, All, subst, ==_iff, Option-cases, Result, ok,
}
use qsp_protocol_node.Evt.{Evt, Status, assigned, to_be_submitted, submitted}
use qsp_protocol_node.Evt.Codec.{Row, decode, decode_keeps, decode_nullable}
use qsp_protocol_node.Pool.Rows.{find, is_assigned, is_to_be_submitted, is_submitted, select}
use qsp_protocol_node.Pool.Rows.Laws.{find-append_new}
use qsp_protocol_node.Pool.Rows.Unique.{UniqueIds, append_new-UniqueIds}
use qsp_protocol_node.Threads.Chain.{Config}
use qsp_protocol_node.Node.{Node, rows_of, Step, Reach}
use qsp_protocol_node.Node.Writes.{Write}
use qsp_protocol_node.Node.Rows.{IsSound, find-Write_own, find-Write_other, Write-UniqueIds}
use qsp_protocol_node.Node.Owned.{Owned, Owned-kept}
use Polls.{Added, nothing, added}

-- The table: one row to a request, and every row sound.
pub record IsConsistent (rows : List Row) : Type 0 where
  pub unique : UniqueIds rows
  pub sound : (id : ℕ) (row : Row) → find id rows ≡ some row → IsSound row

-- The node: a consistent table, and each thread still owns the rows that it holds.
pub record Inv (n : Node) : Type 0 where
  pub consistent : IsConsistent (rows_of n)
  pub performing_owned : Owned is_assigned (rows_of n) n.performing
  pub submitting_owned : Owned is_to_be_submitted (rows_of n) n.submitting
  pub monitoring_owned : Owned is_submitted (rows_of n) n.monitoring

-- A consistent table stays so under a write to a row that was read as it stands.
pub Write-IsConsistent :
    {allowed : Status → Bool} {evt : Evt} {rows rows' : List Row} (row : Row)
    → Write allowed evt rows rows'
    → find evt.request_id rows ≡ some row
    → evt.submission_attempts ≡ row.submission_attempts
    → IsConsistent rows
    → IsConsistent rows'
Write-IsConsistent {evt} {rows} {rows'} row w found same c = record {
  unique = Write-UniqueIds w c.unique;
  sound = λ id r h. elim (Bool-cases (evt.request_id == id)) [
    | inl e ↦
        let (row', found', moved) = find-Write_own row w found same in
        subst IsSound
          (some-injective row' r
            (sym found' ∙ ap (λ k. find k rows') ((==_iff evt.request_id id).0 e) ∙ h))
          (moved.sound (c.sound evt.request_id row found))
    | inr e ↦ c.sound id r (sym (find-Write_other id w e) ∙ h)
  ];
}

pub find-Added :
    {rows rows' : List Row} (id : ℕ) (row : Row)
    → Added rows rows'
    → find id rows ≡ some row
    → find id rows' ≡ some row
find-Added id row (nothing w) h = ap (find id) w ∙ h
find-Added {rows} id row (added new fresh a s w) h =
    ap (find id) w ∙ find-append_new id new rows ∙ unfold or_else in ground arith

pub Added-IsConsistent :
    {rows rows' : List Row} → Added rows rows' → IsConsistent rows → IsConsistent rows'
Added-IsConsistent (nothing w) c = subst IsConsistent (sym w) c
Added-IsConsistent {rows} (added new fresh a s w) c = subst IsConsistent (sym w) (record {
  unique = append_new-UniqueIds new rows c.unique fresh;
  sound = λ id r h. elim (Option-cases (find id rows)) [
    | inl e ↦
        let same : new ≡ r = unfold or_else in ground (arith, find-append_new id new rows) in
        subst IsSound same s
    | inr (old, e) ↦ c.sound id r (unfold or_else in ground (arith, find-append_new id new rows))
  ];
})

Added-Owned :
    (test : Status → Bool) {rows rows' : List Row} (held : List Row)
    → Added rows rows'
    → Owned test rows held
    → Owned test rows' held
Added-Owned test {rows} {rows'} held a =
    Owned-kept test rows rows' held (λ r k. find-Added r.request_id r a k.0)

-- The event that a row decodes to has the block of its submission, if the row has.
decode-submission_block :
    (row : Row) (evt : Evt)
    → decode row ≡ some evt
    → row.submission_block_nbr ≢ none
    → (block : ℕ) × (evt.submission_block_nbr ≡ some block)
unfolding decode decode_nullable
decode-submission_block row evt h b = elim (Option-cases evt.submission_block_nbr) [
  | inl e ↦ absurd (ground arith)
  | inr found ↦ found
]
