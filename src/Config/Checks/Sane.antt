-- ===== src/Config/Checks/Sane.antt =====
-- The settings that pass the checks.
use qsp_protocol_node.Prelude.{
  is_greater, ◌≤ℤ◌, is_greater_iff, ℕ, ◌*◌, ◌≡◌, refl, ℤ, pos, Bool, true, false, not, ◌||◌, Option,
  none, some, List, [], ◌∷◌, All, arith, ok, >>=-eq-ok, ok-injective, ◌↔◌, ◌⊎◌, inl, inr, ap, sym,
  ◌∙◌, Bool-cases, subst,
}
use qsp_protocol_node.Config.Values.{
  Value, num, text, flag, nothing, sequence, mapping, as_int, greater_ints, greater,
}
use qsp_protocol_node.Config.Settings.{Settings}
use qsp_protocol_node.Config.Client.{is_text}
use qsp_protocol_node.Config.Checks.{
  raise_err, raise_if_greater, check_strategy, Limits, check_timeouts, check_gas_price,
  check_configuration_settings,
}

-- A value is an integer that is at most another one.
abbrev pub AtMost : Value → ℤ → Type 0
AtMost v b = (n : ℤ) × (as_int v ≡ some n) × (n ≤ℤ b)

greater-greater_ints :
    (v w : Value) (n : ℤ) → as_int w ≡ some n → greater v w ≡ greater_ints (as_int v) (some n)
unfolding greater
greater-greater_ints nothing w n i = refl
greater-greater_ints (text s) (text t) n i = cc
greater-greater_ints (text s) nothing n i = refl
greater-greater_ints (text s) (num k) n i = refl
greater-greater_ints (text s) (flag c) n i = refl
greater-greater_ints (text s) (sequence vs) n i = refl
greater-greater_ints (text s) (mapping es) n i = refl
greater-greater_ints (num k) w n i = rw i refl
greater-greater_ints (flag c) w n i = rw i refl
greater-greater_ints (sequence vs) w n i = refl
greater-greater_ints (mapping es) w n i = refl

greater_of_ints :
    (v w : Value) (m n : ℤ)
    → as_int v ≡ some m
    → as_int w ≡ some n
    → greater v w ≡ ok (is_greater m n)
greater_of_ints v w m n a i =
    greater-greater_ints v w n i ∙ ap (λ (o : Option ℤ). greater_ints o (some n)) a

greater_ints-inv :
    (o : Option ℤ) (n : ℤ) (b : Bool)
    → greater_ints o (some n) ≡ ok b
    → (m : ℤ) × (o ≡ some m) × (is_greater m n ≡ b)
greater_ints-inv none n b h = cc
greater_ints-inv (some m) n b h = (m, refl, ok-injective h)

pub raise_err-ok : (b : Bool) → raise_err b ≡ ok tt → b ≡ false
unfolding raise_err
raise_err-ok b h = ground arith

-- A comparison that is checked not to hold.
pub checked-AtMost :
    (v w : Value) (n : ℤ) → as_int w ≡ some n → raise_if_greater v w ≡ ok tt → AtMost v n
unfolding raise_if_greater
checked-AtMost v w n i h =
    let (b, g, h₁) = >>=-eq-ok (greater v w) _ h in
    let (m, a, e) = greater_ints-inv (as_int v) n b (sym (greater-greater_ints v w n i) ∙ g) in
    (m, a, (is_greater_iff m n).0 (e ∙ raise_err-ok b h₁))

pub AtMost-checked :
    (v w : Value) (n : ℤ) → as_int w ≡ some n → AtMost v n → raise_if_greater v w ≡ ok tt
unfolding raise_if_greater raise_err
AtMost-checked v w n i (m, a, le) =
    let e : greater v w ≡ ok false =
      greater_of_ints v w m n a i ∙ ap (λ (b : Bool). ok b) ((is_greater_iff m n).1 le) in
    rw e refl

timeouts_iff :
    (blocks : ℕ) (timeouts : List Value)
    → (check_timeouts blocks timeouts ≡ ok tt) ↔ All (λ t. AtMost t (pos (blocks * 12))) timeouts
unfolding check_timeouts
timeouts_iff blocks [] = (λ h. tt, λ h. refl)
timeouts_iff blocks (t ∷ ts) = (
  λ h.
      let (u, e, h₁) = >>=-eq-ok (raise_if_greater t (num (pos (blocks * 12)))) _ h in
      (checked-AtMost t _ _ refl e, (timeouts_iff blocks ts).0 h₁),
  λ (least, rest). rw (AtMost-checked t _ _ refl least) ((timeouts_iff blocks ts).1 rest),
)

-- There is no maximum, or the default gas price keeps to it.
abbrev pub GasIsSane : Settings → Type 0
GasIsSane config =
    AtMost config.max_gas_price_wei (pos 0)
    ⊎ ((n : ℤ) × (as_int config.max_gas_price_wei ≡ some n) × AtMost config.default_gas_price_wei n)

gas-passes :
    (config : Settings) (m : ℤ)
    → as_int config.max_gas_price_wei ≡ some m
    → (is_greater m (pos 0) ≡ true → AtMost config.default_gas_price_wei m)
    → check_gas_price config ≡ ok tt
unfolding check_gas_price
gas-passes config m a keeps =
    let g = greater_of_ints config.max_gas_price_wei (num (pos 0)) m (pos 0) a refl in
    elim (Bool-cases (is_greater m (pos 0))) [
      | inl is ↦ rw g (rw is (AtMost-checked _ _ m a (keeps is)))
      | inr below ↦ rw g (rw below refl)
    ]

gas_iff : (config : Settings) → (check_gas_price config ≡ ok tt) ↔ GasIsSane config
unfolding check_gas_price
gas_iff config = (
  λ h.
      let (limited, g, h₁) = >>=-eq-ok (greater config.max_gas_price_wei (num (pos 0))) _ h in
      let (m, a, e) =
        greater_ints-inv (as_int config.max_gas_price_wei) (pos 0) limited
          (sym (greater-greater_ints config.max_gas_price_wei (num (pos 0)) (pos 0) refl) ∙ g) in
      elim (Bool-cases limited) [
        | inl is ↦ inr (m, a, checked-AtMost _ _ m a (rw is at h₁))
        | inr below ↦ inl (m, a, (is_greater_iff m (pos 0)).0 (e ∙ below))
      ],
  λ sane. elim sane [
    | inl (m, a, le) ↦
        gas-passes config m a (λ is. let below = (is_greater_iff m (pos 0)).1 le in cc)
    | inr (m, a, keeps) ↦ gas-passes config m a (λ is. keeps)
  ],
)

-- The settings of a node, for an audit timeout and a maximum of assigned requests of the contract.
pub record IsSane (config : Settings) (timeouts : List Value) (blocks requests : ℕ) : Type 0 where
  pub start : ℤ
  pub submission : ℤ
  pub confirmation : ℤ
  pub start_eq : as_int config.start_n_blocks_in_the_past ≡ some start
  pub submission_eq : as_int config.submission_timeout_limit_blocks ≡ some submission
  pub confirmation_eq : as_int config.n_blocks_confirmation ≡ some confirmation
  pub start_le : start ≤ℤ submission
  pub submission_le : submission ≤ℤ pos blocks
  pub timeouts_le : All (λ t. AtMost t (pos (blocks * 12))) timeouts
  pub requests_le : AtMost config.max_assigned_requests (pos requests)
  pub gas : GasIsSane config
  pub strategy :
      (is_text config.gas_price_strategy "dynamic" ≡ true)
      ⊎ (is_text config.gas_price_strategy "static" ≡ true)
  pub confirmation_ge : pos 0 ≤ℤ confirmation
  pub confirmation_le : confirmation ≤ℤ pos 50

strategy_lem : (a b : Bool) → (raise_err (not (a || b)) ≡ ok tt) ↔ ((a ≡ true) ⊎ (b ≡ true))
unfolding raise_err
strategy_lem true b = (λ h. inl refl, λ h. refl)
strategy_lem false true = (λ h. inr refl, λ h. refl)
strategy_lem false false = (λ h. cc, λ h. elim h [ inl e ↦ cc | inr e ↦ cc ])

-- The check passes exactly the settings of a node that fit the contract: it looks no further into the
-- past than its submission timeout, which the audit timeout of the contract bounds, as it bounds each
-- analyzer's; it takes no more requests than the contract gives, keeps its default gas price under its
-- maximum if there is one, has a known strategy, and waits for 0 to 50 confirmations.
pub check_configuration_settings_iff :
    (config : Settings) (timeouts : List Value) (limits : Limits) (blocks requests : ℕ)
    → limits.audit_timeout_in_blocks ≡ ok blocks
    → limits.max_assigned_requests ≡ ok requests
    → (check_configuration_settings config timeouts limits ≡ ok tt)
      ↔ IsSane config timeouts blocks requests
unfolding check_configuration_settings check_strategy
check_configuration_settings_iff config timeouts limits blocks requests l₁ l₂ = (
  λ h₀.
      let h = rw l₁ at h₀ in
      let h' = rw l₂ at h in
      let (u₁, e₁, h₁) =
        >>=-eq-ok
          (raise_if_greater config.start_n_blocks_in_the_past
            config.submission_timeout_limit_blocks)
          _ h' in
      let (u₂, e₂, h₂) =
        >>=-eq-ok (raise_if_greater config.submission_timeout_limit_blocks (num (pos blocks))) _
          h₁ in
      let (u₃, e₃, h₃) = >>=-eq-ok (check_timeouts blocks timeouts) _ h₂ in
      let (u₄, e₄, h₄) =
        >>=-eq-ok (raise_if_greater config.max_assigned_requests (num (pos requests))) _ h₃ in
      let (u₅, e₅, h₅) = >>=-eq-ok (check_gas_price config) _ h₄ in
      let (u₆, e₆, h₆) = >>=-eq-ok (check_strategy config) _ h₅ in
      let (u₇, e₇, h₇) =
        >>=-eq-ok (raise_if_greater config.n_blocks_confirmation (num (pos 50))) _ h₆ in
      let (n, n_eq, n_le) =
        checked-AtMost config.submission_timeout_limit_blocks (num (pos blocks)) (pos blocks) refl
          e₂ in
      let (m, m_eq, m_le) =
        checked-AtMost config.start_n_blocks_in_the_past config.submission_timeout_limit_blocks n
          n_eq e₁ in
      let (k, k_eq, k_le) =
        checked-AtMost config.n_blocks_confirmation (num (pos 50)) (pos 50) refl e₇ in
      let (z, z_eq, z_le) = checked-AtMost (num (pos 0)) config.n_blocks_confirmation k k_eq h₇ in
      record {
        start = m;
        submission = n;
        confirmation = k;
        start_eq = m_eq;
        submission_eq = n_eq;
        confirmation_eq = k_eq;
        start_le = m_le;
        submission_le = n_le;
        timeouts_le = (timeouts_iff blocks timeouts).0 e₃;
        requests_le = checked-AtMost _ _ (pos requests) refl e₄;
        gas = (gas_iff config).0 e₅;
        strategy = (strategy_lem _ _).0 e₆;
        confirmation_ge = (let same : pos 0 ≡ z = cc in subst (λ (i : ℤ). i ≤ℤ k) (sym same) z_le);
        confirmation_le = k_le;
      },
  λ sane. rw l₁ (
      rw l₂ (
        rw
          (AtMost-checked config.start_n_blocks_in_the_past _ sane.submission sane.submission_eq
            (sane.start, sane.start_eq, sane.start_le))
          (rw
            (AtMost-checked config.submission_timeout_limit_blocks (num (pos blocks)) (pos blocks)
              refl (sane.submission, sane.submission_eq, sane.submission_le))
            (rw ((timeouts_iff blocks timeouts).1 sane.timeouts_le) (
              rw
                (AtMost-checked config.max_assigned_requests (num (pos requests)) (pos requests)
                  refl sane.requests_le)
                (rw ((gas_iff config).1 sane.gas) (
                  rw ((strategy_lem _ _).1 sane.strategy) (
                    rw
                      (AtMost-checked config.n_blocks_confirmation (num (pos 50)) (pos 50) refl
                        (sane.confirmation, sane.confirmation_eq, sane.confirmation_le))
                      (AtMost-checked (num (pos 0)) config.n_blocks_confirmation sane.confirmation
                        sane.confirmation_eq (pos 0, refl, sane.confirmation_ge)))))))))),
)
