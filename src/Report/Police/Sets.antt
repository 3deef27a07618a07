-- ===== src/Report/Police/Sets.antt =====
-- Lists as sets: the keys of a dictionary, and how many they are.
use qsp_protocol_node.Prelude.{
  ◌+◌, ◌≤◌, ◌≡◌, refl, ◌↔◌, Bool, true, false, not, ◌&&◌, ◌||◌, List, [], ◌∷◌, ◌++◌, arith, length,
  if◌then◌else◌, Bool-cases, inl, inr,
}
use qsp_protocol_node.Report.Vulnerabilities.{member, from_keys}

module _ {A : Type 0} (eq : A → A → Bool) (eq_iff : (a b : A) → (eq a b ≡ true) ↔ (a ≡ b)) where
  pub member-append :
      (a : A) (xs ys : List A) → member eq a (xs ++ ys) ≡ (member eq a xs || member eq a ys)
  unfolding member
  member-append a [] ys = refl
  member-append a (x ∷ xs) ys = ground (arith, member-append a xs ys)

  -- The keys are the elements that have not been seen.
  pub member-from_keys :
      (a : A) (seen xs : List A)
      → member eq a (from_keys eq seen xs) ≡ (member eq a xs && not (member eq a seen))
  unfolding member from_keys
  member-from_keys a seen [] = refl
  member-from_keys a seen (x ∷ xs) =
      ground (arith, member-from_keys a seen xs, member-from_keys a (x ∷ seen) xs, eq_iff a x)

  abbrev pub Distinct : List A → Type 0
  Distinct [] = Unit {0}
  Distinct (x ∷ xs) = (member eq x xs ≡ false) × Distinct xs

  pub from_keys-Distinct : (seen xs : List A) → Distinct (from_keys eq seen xs)
  unfolding from_keys member
  from_keys-Distinct seen [] = tt
  from_keys-Distinct seen (x ∷ xs) = elim (Bool-cases (member eq x seen)) [
    | inl old ↦ rw old (from_keys-Distinct seen xs)
    | inr new ↦
        let e = member-from_keys x (x ∷ seen) xs in
        let i = (eq_iff x x).1 refl in rw new (ground arith, from_keys-Distinct (x ∷ seen) xs)
  ]

  -- A list without the first `a`.
  del : A → List A → List A
  del a [] = []
  del a (x ∷ xs) = if eq a x then xs else x ∷ del a xs

  length-del : (a : A) (xs : List A) → member eq a xs ≡ true → length xs ≡ length (del a xs) + 1
  unfolding del member
  length-del a [] h = cc
  length-del a (x ∷ xs) h = elim (Bool-cases (eq a x)) [
    | inl e ↦ rw e (omega arith)
    | inr e ↦ rw e (omega (arith, length-del a xs (ground arith)))
  ]

  member-del :
      (a b : A) (xs : List A)
      → eq b a ≡ false
      → member eq b xs ≡ true
      → member eq b (del a xs) ≡ true
  unfolding del member
  member-del a b [] n h = cc
  member-del a b (x ∷ xs) n h =
      ground (arith, member-del a b xs n, eq_iff a x, eq_iff b x, eq_iff b a)

  -- Distinct elements that all occur in a list are no more than the list has.
  pub length-le-of_subset :
      (xs ys : List A)
      → Distinct xs
      → ((a : A) → member eq a xs ≡ true → member eq a ys ≡ true)
      → length xs ≤ length ys
  unfolding member
  length-le-of_subset [] ys d h = omega arith
  length-le-of_subset (x ∷ xs) ys d h =
      let i = (eq_iff x x).1 refl in
      let found : member eq x ys ≡ true = h x (ground arith) in
      let rest =
        length-le-of_subset xs (del x ys) d.1
          (λ a m. member-del x a ys (not_first x a xs d.0 m) (h a (ground arith))) in
      omega (arith, length-del x ys found)
    where
      not_first :
          (x a : A) (xs : List A) → member eq x xs ≡ false → member eq a xs ≡ true → eq a x ≡ false
      not_first x a xs n m = elim (Bool-cases (eq a x)) [
        | inl e ↦ let same : a ≡ x = (eq_iff a x).0 e in absurd (cc)
        | inr e ↦ e
      ]
