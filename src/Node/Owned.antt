-- ===== src/Node/Owned.antt =====
-- The rows that a thread holds from its last select are still those of the table: no other thread
-- writes to a request in the thread's own state.
use mathlib.Core.Option.{some-injective}
use qsp_protocol_node.Prelude.{
  ℕ, ◌≡◌, refl, Bool, true, none, List, [], ◌∷◌, arith, ap, sym, ◌∙◌, ◌==◌, Bool-cases, inl, inr,
  All, subst,
}
use qsp_protocol_node.Evt.{Evt, Status}
use qsp_protocol_node.Evt.Codec.{Row}
use qsp_protocol_node.Pool.Rows.{find, select}
use qsp_protocol_node.Pool.Rows.Unique.{UniqueIds, Current}
use qsp_protocol_node.Node.Writes.{Write}
use qsp_protocol_node.Node.Rows.{find-Write_other}

-- The table still has the row as it was read, in a state of the thread.
abbrev pub Held : (Status → Bool) → List Row → Row → Type 0
Held test rows row = Current rows row × (test row.fk_status ≡ true)

abbrev pub Owned : (Status → Bool) → List Row → List Row → Type 0
Owned test rows held = All (Held test rows) held × UniqueIds held

-- A select returns rows of the table that are in the state asked for, one to a request.
find-select-none :
    (id : ℕ) (test : Status → Bool) (rows : List Row)
    → find id rows ≡ none
    → find id (select test rows) ≡ none
unfolding find select
find-select-none id test [] h = refl
find-select-none id test (row ∷ rows) h = ground (arith, find-select-none id test rows)

UniqueIds-select :
    (test : Status → Bool) (rows : List Row) → UniqueIds rows → UniqueIds (select test rows)
unfolding select
UniqueIds-select test [] u = tt
UniqueIds-select test (row ∷ rows) u =
    ground (arith, UniqueIds-select test rows u.1, find-select-none row.request_id test rows u.0)

-- A row found in the tail is not the head, where ids are unique.
Held-cons :
    (test : Status → Bool) (row : Row) (rows : List Row)
    → find row.request_id rows ≡ none
    → (held : List Row) → All (Held test rows) held
    → All (Held test (row ∷ rows)) held
unfolding find
Held-cons test row rows fresh [] h = tt
Held-cons test row rows fresh (r ∷ held) h = (
  elim (Bool-cases (row.request_id == r.request_id)) [
    | inl e ↦ absurd (ground arith)
    | inr e ↦ ground arith
  ],
  Held-cons test row rows fresh held h.1,
)

Held-select :
    (test : Status → Bool) (rows : List Row)
    → UniqueIds rows
    → All (Held test rows) (select test rows)
unfolding select
Held-select test [] u = tt
Held-select test (row ∷ rows) u = elim (Bool-cases (test row.fk_status)) [
  | inl e ↦
      rw e (
        (unfold find in ground arith, e),
        Held-cons test row rows u.0 _ (Held-select test rows u.1),
      )
  | inr e ↦ rw e (Held-cons test row rows u.0 _ (Held-select test rows u.1))
]

pub select-Owned :
    (test : Status → Bool) (rows : List Row) → UniqueIds rows → Owned test rows (select test rows)
select-Owned test rows u = (Held-select test rows u, UniqueIds-select test rows u)

-- What a thread holds stays owned where its rows are still found.
pub Owned-kept :
    (test : Status → Bool) (rows rows' : List Row) (held : List Row)
    → ((r : Row) → Held test rows r → Current rows' r)
    → Owned test rows held
    → Owned test rows' held
Owned-kept test rows rows' [] keeps o = o
Owned-kept test rows rows' (r ∷ held) keeps o =
    (((keeps r o.0.0, o.0.0.1), (Owned-kept test rows rows' held keeps (o.0.1, o.1.1)).0), o.1)

-- A write to the first row held leaves the others owned.
pub Owned-rest :
    (test : Status → Bool) {allowed : Status → Bool} {evt : Evt} {rows rows' : List Row} (row : Row)
    (rest : List Row)
    → evt.request_id ≡ row.request_id
    → Write allowed evt rows rows'
    → Owned test rows (row ∷ rest)
    → Owned test rows' rest
Owned-rest test {evt} {rows} {rows'} row rest same w o = (kept rest o.0.1 o.1.0, o.1.1)
  where
    kept :
        (held : List Row)
        → All (Held test rows) held
        → find row.request_id held ≡ none
        → All (Held test rows') held
    kept [] h fresh = tt
    kept (r ∷ held) h fresh = elim (Bool-cases (r.request_id == row.request_id)) [
      | inl e ↦ absurd (unfold find in ground arith)
      | inr e ↦ (
        (find-Write_other r.request_id w (ground arith) ∙ h.0.0, h.0.1),
        kept held h.1 (unfold find in ground arith),
      )
    ]

-- A write to a row in one thread's state leaves what the other threads hold owned.
pub Owned-other :
    (test test' : Status → Bool) {allowed : Status → Bool} {evt : Evt} {rows rows' : List Row}
    (row : Row) (held : List Row)
    → evt.request_id ≡ row.request_id
    → Write allowed evt rows rows'
    → Held test rows row
    → ((s : Status) → test s ≡ true → test' s ≡ true → ⊥)
    → Owned test' rows held
    → Owned test' rows' held
Owned-other test test' {evt} {rows} {rows'} row held same w h apart o =
    Owned-kept test' rows rows' held kept o
  where
    kept : (r : Row) → Held test' rows r → Current rows' r
    kept r k = elim (Bool-cases (evt.request_id == r.request_id)) [
      | inl e ↦ absurd (
          apart row.fk_status h.1 (
            subst (λ (x : Row). test' x.fk_status ≡ true)
              (some-injective r row (sym k.0 ∙ ap (λ id. find id rows) (ground arith) ∙ h.0)) k.1))
      | inr e ↦ find-Write_other r.request_id w e ∙ k.0
    ]
