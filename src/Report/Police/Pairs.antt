-- ===== src/Report/Police/Pairs.antt =====
-- The pairs (type, start line) of a report, of its findings and of their groups.
use qsp_protocol_node.Prelude.{
  ℕ, ◌≡◌, refl, ◌↔◌, String, true, ◌||◌, some, List, [], ◌∷◌, ◌++◌, arith, length, str_eq, eq_iff,
  ok, >>=-eq-ok, ok-injective, Option-cases, Bool-cases, inl, inr, subst, ap, sym, ◌∙◌,
}
use qsp_protocol_node.Report.Json.{Instance, Vulnerability, AnalyzerReport}
use qsp_protocol_node.Report.Vulnerabilities.{Finding, member, from_keys, potential}
use qsp_protocol_node.Report.Vulnerabilities.Encoding.{finding}
use qsp_protocol_node.Report.Vulnerabilities.Lists.{
  instance_findings, potential_findings, report_findings, finding_eq, finding_eq_iff,
}
use qsp_protocol_node.Report.Produce.{Groups, add_to_groups, group, to_vulnerabilities}
use qsp_protocol_node.Report.Police.{Pairs, instance_pairs, potential_pairs, report_pairs, pair_eq}
use qsp_protocol_node.Report.Police.Sets.{member-append}

pub pair_eq_iff : (p q : String × ℕ) → (pair_eq p q ≡ true) ↔ (p ≡ q)
pair_eq_iff (s, m) (t, n) = (λ h. ground (arith, eq_iff s t), λ h. ground (arith, eq_iff s t))

abbrev pub pairs : List Finding → Pairs
pairs [] = []
pairs (f ∷ fs) = (f.type, f.start_line) ∷ pairs fs

pub pairs-append : (fs gs : List Finding) → pairs (fs ++ gs) ≡ pairs fs ++ pairs gs
pairs-append [] gs = refl
pairs-append (f ∷ fs) gs = ap (λ (ps : Pairs). (f.type, f.start_line) ∷ ps) (pairs-append fs gs)

pairs-instance_findings :
    (name : String) (is : List Instance)
    → pairs (instance_findings (some name) is) ≡ instance_pairs name is
unfolding instance_findings instance_pairs finding
pairs-instance_findings name [] = refl
pairs-instance_findings name (i ∷ is) =
    ap (λ (ps : Pairs). (name, i.start_line) ∷ ps) (pairs-instance_findings name is)

potential_pairs-findings :
    (vs : List Vulnerability) (ps : Pairs)
    → potential_pairs vs ≡ ok ps
    → ps ≡ pairs (potential_findings vs)
unfolding potential_pairs potential_findings
potential_pairs-findings [] ps h = sym (ok-injective h)
potential_pairs-findings (v ∷ vs) ps h = elim (Option-cases v.type) [
  | inl n ↦ absurd (let e = rw n at h in cc)
  | inr (name, n) ↦
      let (rest, e, h₁) = >>=-eq-ok (potential_pairs vs) _ (rw n at h) in
      rw n (
        sym (ok-injective h₁)
        ∙ ap (λ (x : Pairs). instance_pairs name v.instances ++ x)
            (potential_pairs-findings vs rest e)
        ∙ ap (λ (x : Pairs). x ++ pairs (potential_findings vs))
            (sym (pairs-instance_findings name v.instances))
        ∙ sym (pairs-append (instance_findings (some name) v.instances) (potential_findings vs)))
]

pub report_pairs-findings :
    (rs : List AnalyzerReport) (ps : Pairs)
    → report_pairs rs ≡ ok ps
    → ps ≡ pairs (report_findings rs)
unfolding report_pairs report_findings
report_pairs-findings [] ps h = sym (ok-injective h)
report_pairs-findings (r ∷ rs) ps h =
    let (qs, e, h₁) = >>=-eq-ok (potential_pairs (potential r)) _ h in
    let (rest, e', h₂) = >>=-eq-ok (report_pairs rs) _ h₁ in
    sym (ok-injective h₂)
    ∙ ap (λ (x : Pairs). x ++ rest) (potential_pairs-findings (potential r) qs e)
    ∙ ap (λ (x : Pairs). pairs (potential_findings (potential r)) ++ x)
        (report_pairs-findings rs rest e')
    ∙ sym (pairs-append (potential_findings (potential r)) (report_findings rs))

-- Leaving out repeated findings leaves out no pair.
member-pairs :
    (f : Finding) (fs : List Finding)
    → member finding_eq f fs ≡ true
    → member pair_eq (f.type, f.start_line) (pairs fs) ≡ true
unfolding member
member-pairs f [] h = cc
member-pairs f (g ∷ fs) h = elim (Bool-cases (finding_eq f g)) [
  | inl e ↦
      let same : f ≡ g = (finding_eq_iff f g).0 e in
      let i =
        (pair_eq_iff (f.type, f.start_line) (g.type, g.start_line)).1
          (ap (λ (x : Finding). (x.type, x.start_line)) same) in
      rw i refl
  | inr e ↦ let rest = member-pairs f fs (ground arith) in ground arith
]

pub member-from_keys-pairs :
    (q : String × ℕ) (seen fs : List Finding)
    → (member pair_eq q (pairs (from_keys finding_eq seen fs)) || member pair_eq q (pairs seen))
      ≡ (member pair_eq q (pairs fs) || member pair_eq q (pairs seen))
unfolding from_keys member
member-from_keys-pairs q seen [] = refl
member-from_keys-pairs q seen (f ∷ fs) = elim (Bool-cases (member finding_eq f seen)) [
  | inl old ↦ elim (Bool-cases (pair_eq q (f.type, f.start_line))) [
    | inl e ↦
        let same : q ≡ (f.type, f.start_line) = (pair_eq_iff q (f.type, f.start_line)).0 e in
        let found =
          subst (λ (p : String × ℕ). member pair_eq p (pairs seen) ≡ true) (sym same)
            (member-pairs f seen old) in
        ground (arith, found)
    | inr e ↦ let rest = member-from_keys-pairs q seen fs in rw old (rw e rest)
  ]
  | inr new ↦ let rest = member-from_keys-pairs q (f ∷ seen) fs in rw new (ground (arith, rest))
]

abbrev pub groups_pairs : Groups → Pairs
groups_pairs [] = []
groups_pairs (g ∷ gs) = instance_pairs g.0 g.1 ++ groups_pairs gs

pub potential_pairs-to_vulnerabilities :
    (gs : Groups) → potential_pairs (to_vulnerabilities gs) ≡ ok (groups_pairs gs)
unfolding potential_pairs to_vulnerabilities
potential_pairs-to_vulnerabilities [] = refl
potential_pairs-to_vulnerabilities (g ∷ gs) = rw (potential_pairs-to_vulnerabilities gs) refl

instance_pairs-append :
    (name : String) (is js : List Instance)
    → instance_pairs name (is ++ js) ≡ instance_pairs name is ++ instance_pairs name js
unfolding instance_pairs
instance_pairs-append name [] js = refl
instance_pairs-append name (i ∷ is) js =
    ap (λ (ps : Pairs). (name, i.start_line) ∷ ps) (instance_pairs-append name is js)

member-add_to_groups :
    (q : String × ℕ) (f : Finding) (gs : Groups)
    → member pair_eq q (groups_pairs (add_to_groups f gs))
      ≡ (member pair_eq q (groups_pairs gs) || pair_eq q (f.type, f.start_line))
unfolding add_to_groups member instance_pairs
member-add_to_groups q f [] = ground arith
member-add_to_groups q f ((name, is) ∷ gs) =
    let here = member-append pair_eq pair_eq_iff q in
    elim (Bool-cases (str_eq name f.type)) [
      | inl e ↦
          let same : name ≡ f.type = (eq_iff name f.type).0 e in
          let i : Instance = record {
            ref_id = length is;
            start_line = f.start_line;
            end_line = some f.end_line;
          } in
          let split =
            here (instance_pairs name (is ++ i ∷ [])) (groups_pairs gs)
            ∙ ap (λ (x : Pairs). member pair_eq q x || member pair_eq q (groups_pairs gs))
                (instance_pairs-append name is (i ∷ [])) in
          let named = ap (λ (n : String). pair_eq q (n, f.start_line)) same in
          rw e (
            ground (
              arith,
              split,
              here (instance_pairs name is) (instance_pairs name (i ∷ [])),
              here (instance_pairs name is) (groups_pairs gs),
              named,
            ))
      | inr e ↦
          let rest = member-add_to_groups q f gs in
          rw e (
            ground (
              arith,
              rest,
              here (instance_pairs name is) (groups_pairs (add_to_groups f gs)),
              here (instance_pairs name is) (groups_pairs gs),
            ))
    ]

pub member-group :
    (q : String × ℕ) (gs : Groups) (fs : List Finding)
    → member pair_eq q (groups_pairs (group gs fs))
      ≡ (member pair_eq q (groups_pairs gs) || member pair_eq q (pairs fs))
unfolding group member
member-group q gs [] = ground arith
member-group q gs (f ∷ fs) =
    ground (arith, member-group q (add_to_groups f gs) fs, member-add_to_groups q f gs)
