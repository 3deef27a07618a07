-- ===== src/Node/Rows.antt =====
-- What every row of the table satisfies, and how a handler's write moves a row.
use qsp_protocol_node.Prelude.{
  ℕ, ◌+◌, ◌≤◌, ◌≡◌, refl, Bool, true, false, none, some, List, arith, ap, sym, subst, ◌∙◌, ◌==◌,
  Option-cases, ◌≢◌, inl, inr,
}
use qsp_protocol_node.Evt.{Evt, Status, assigned, to_be_submitted, submitted, done, error}
use qsp_protocol_node.Evt.Codec.{Row, encode, decode, decode_nullable}
use qsp_protocol_node.Evt.Decimal.{int, int-str}
use qsp_protocol_node.Pool.Rows.{find, update, is_active, is_to_be_submitted, any_status}
use qsp_protocol_node.Pool.Rows.Laws.{find-update, updated}
use qsp_protocol_node.Pool.Rows.Unique.{UniqueIds, update-UniqueIds}
use qsp_protocol_node.Pool.Manager.{
  to_be_submitted_columns, submitted_columns, done_columns, error_columns,
}
use qsp_protocol_node.Threads.Monitor.{max_submission_attempts}
use qsp_protocol_node.Node.Writes.{Write, nothing, resubmits, submits, finishes, fails}

-- The edges of the life cycle that a write adds: from the state `s`, into one that is allowed.
abbrev pub moves : (Status → Bool) → Status → Status → Bool
moves allowed assigned assigned = true
moves allowed to_be_submitted to_be_submitted = true
moves allowed submitted submitted = true
moves allowed done done = true
moves allowed error error = true
moves allowed s t = allowed t

-- The submissions counted so far stay within the maximum, there is none before the report is
-- written, and from then on the block of the submission is known.
pub record IsSound (row : Row) : Type 0 where
  pub attempts_bounded : row.submission_attempts ≤ max_submission_attempts
  pub assigned_unattempted : row.fk_status ≡ assigned → row.submission_attempts ≡ 0
  pub to_be_submitted_block : row.fk_status ≡ to_be_submitted → row.submission_block_nbr ≢ none
  pub submitted_block : row.fk_status ≡ submitted → row.submission_block_nbr ≢ none
  pub assigned_block_decodes : int row.assigned_block_nbr ≢ none
  pub price_decodes : int row.price ≢ none
  pub submission_block_decodes : decode_nullable row.submission_block_nbr ≢ none

-- The row of another request is untouched.
pub find-Write_other :
    {allowed : Status → Bool} {evt : Evt} {rows rows' : List Row} (j : ℕ)
    → Write allowed evt rows rows'
    → (evt.request_id == j) ≡ false
    → find j rows' ≡ find j rows
find-Write_other j (nothing e) h = ap (find j) e
find-Write_other {rows} j (resubmits e block _ _ _ w) h =
    ap (find j) w ∙ find-update _ _ _ (λ _. refl) j rows ∙ rw h
find-Write_other {rows} j (submits e _ w) h =
    ap (find j) w ∙ find-update _ _ _ (λ _. refl) j rows ∙ rw h
find-Write_other {rows} j (finishes e _ w) h =
    ap (find j) w ∙ find-update _ _ _ (λ _. refl) j rows ∙ rw h
find-Write_other {rows} j (fails e _ w) h =
    ap (find j) w ∙ find-update _ _ _ (λ _. refl) j rows ∙ rw h

-- What becomes of the row of the event itself.
pub record Moved (allowed : Status → Bool) (row row' : Row) : Type 0 where
  pub same_request : row'.request_id ≡ row.request_id
  pub along : moves allowed row.fk_status row'.fk_status ≡ true
  pub sound : IsSound row → IsSound row'

updated-resubmits :
    (allowed : Status → Bool) (e : Evt) (block : ℕ) (row : Row)
    → allowed to_be_submitted ≡ true
    → row.submission_attempts + 1 ≤ max_submission_attempts
    → e.submission_block_nbr ≡ some block
    → Moved allowed row (updated is_active (to_be_submitted_columns (encode e)) row)
unfolding encode decode_nullable
updated-resubmits allowed e block row a le b = ground (arith, int-str block)

updated-submits :
    (allowed : Status → Bool) (e : Evt) (row : Row)
    → allowed submitted ≡ true
    → Moved allowed row (updated is_to_be_submitted (submitted_columns (encode e)) row)
updated-submits allowed e row a = ground arith

updated-finishes :
    (allowed : Status → Bool) (e : Evt) (row : Row)
    → allowed done ≡ true
    → Moved allowed row (updated is_active (done_columns (encode e)) row)
updated-finishes allowed e row a = ground arith

updated-fails :
    (allowed : Status → Bool) (e : Evt) (row : Row)
    → allowed error ≡ true
    → Moved allowed row (updated any_status (error_columns (encode e)) row)
updated-fails allowed e row a = ground arith

Moved-refl : (allowed : Status → Bool) (row : Row) → Moved allowed row row
Moved-refl allowed row = ground arith

-- The row that an update of a request finds and changes.
find-update_own :
    (id : ℕ) (guard : Status → Bool) (set : Row → Row) (rows : List Row) {rows' : List Row}
    (row : Row)
    → ((r : Row) → (set r).request_id ≡ r.request_id)
    → rows' ≡ update id guard set rows
    → find id rows ≡ some row
    → find id rows' ≡ some (updated guard set row)
find-update_own id guard set rows row keeps w h =
    ap (find id) w ∙ find-update id guard set keeps id rows ∙ ground (arith)

-- The row of the event moves along an edge that the thread may take, and stays sound.
pub find-Write_own :
    {allowed : Status → Bool} {evt : Evt} {rows rows' : List Row} (row : Row)
    → Write allowed evt rows rows'
    → find evt.request_id rows ≡ some row
    → evt.submission_attempts ≡ row.submission_attempts
    → (row' : Row) × (find evt.request_id rows' ≡ some row') × Moved allowed row row'
find-Write_own {allowed} {evt} row (nothing w) h n =
    (row, ap (find evt.request_id) w ∙ h, Moved-refl allowed row)
find-Write_own {allowed} {evt} row (resubmits e block a le b w) h n = (
  _,
  find-update_own _ _ _ _ row (λ _. refl) w h,
  updated-resubmits allowed e block row a (omega arith) b,
)
find-Write_own {allowed} row (submits e a w) h n =
    (_, find-update_own _ _ _ _ row (λ _. refl) w h, updated-submits allowed e row a)
find-Write_own {allowed} row (finishes e a w) h n =
    (_, find-update_own _ _ _ _ row (λ _. refl) w h, updated-finishes allowed e row a)
find-Write_own {allowed} row (fails e a w) h n =
    (_, find-update_own _ _ _ _ row (λ _. refl) w h, updated-fails allowed e row a)

pub Write-UniqueIds :
    {allowed : Status → Bool} {evt : Evt} {rows rows' : List Row}
    → Write allowed evt rows rows'
    → UniqueIds rows
    → UniqueIds rows'
Write-UniqueIds (nothing w) u = subst UniqueIds (sym w) u
Write-UniqueIds {rows} (resubmits e block a le b w) u =
    subst UniqueIds (sym w) (update-UniqueIds _ _ _ (λ _. refl) rows u)
Write-UniqueIds {rows} (submits e a w) u =
    subst UniqueIds (sym w) (update-UniqueIds _ _ _ (λ _. refl) rows u)
Write-UniqueIds {rows} (finishes e a w) u =
    subst UniqueIds (sym w) (update-UniqueIds _ _ _ (λ _. refl) rows u)
Write-UniqueIds {rows} (fails e a w) u =
    subst UniqueIds (sym w) (update-UniqueIds _ _ _ (λ _. refl) rows u)

-- A sound row decodes.
pub IsSound-decode : (row : Row) → IsSound row → (evt : Evt) × (decode row ≡ some evt)
unfolding decode
IsSound-decode row s = elim (Option-cases (decode row)) [
  | inl e ↦ absurd (ground arith)
  | inr found ↦ found
]
