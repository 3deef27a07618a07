-- ===== src/Threads/GasPrice.antt =====
-- ComputeGasPriceThread.compute_gas_price (audit/threads/compute_gas_price_thread.py). The maximum of a
-- configuration that sets none is -1, and the minimum of the price and it is taken all the same.
use qsp_protocol_node.Prelude.{
  ℕ, ℤ, pos, ◌≤ℤ◌, min_ℤ, min-le, min_le_eq, String, ◌≡◌, true, false, str_eq, if◌then◌else◌,
  Result, ok, ◌>>=◌, >>=-eq-ok, ok-injective, ap, sym, ◌∙◌, subst, negsuc, is_greater,
  is_greater_iff, arith, Bool-cases, inl, inr, ◌⊎◌, refl,
}

pub record GasConfig : Type 0 where
  pub gas_price_strategy : String
  pub default_gas_price_wei : ℤ
  pub max_gas_price_wei : ℤ
  pub gas_price_wei : ℤ

abbrev asked : Result ℕ → Result ℤ
asked get_gas_price = do price ← get_gas_price; ok (pos price)

-- `get_gas_price` is asked only under a strategy that is not static.
unfoldable pub compute_gas_price : GasConfig → Result ℕ → Result GasConfig
unfolding min_ℤ
compute_gas_price config get_gas_price = do
  gas_price ←
      if str_eq config.gas_price_strategy "static"
      then ok config.default_gas_price_wei
      else asked get_gas_price
  ok (record config { gas_price_wei = min_ℤ gas_price config.max_gas_price_wei })

-- The price before the maximum is applied: the default under the static strategy, and else the price
-- that was asked for.
abbrev pub IsAsked : GasConfig → Result ℕ → ℤ → Type 0
IsAsked config get_gas_price price =
    ((str_eq config.gas_price_strategy "static" ≡ true) × (price ≡ config.default_gas_price_wei))
    ⊎ ((str_eq config.gas_price_strategy "static" ≡ false)
        × (asked_price : ℕ) × (get_gas_price ≡ ok asked_price)
        × (price ≡ pos asked_price))

min-nothing : (price max : ℤ) → pos 0 ≤ℤ price → max ≤ℤ pos 0 → min_ℤ price max ≡ max
unfolding min_ℤ is_greater
min-nothing (pos p) (pos m) h le = ground arith
min-nothing (pos p) (negsuc m) h le = refl
min-nothing (negsuc p) max h le = absurd h

min-greater : (price max : ℤ) → is_greater price max ≡ true → min_ℤ price max ≡ max
unfolding min_ℤ
min-greater price max h = rw h refl

asked-IsAsked :
    (config : GasConfig) (get_gas_price : Result ℕ) (price : ℤ)
    → (if str_eq config.gas_price_strategy "static"
        then ok config.default_gas_price_wei
        else asked get_gas_price)
      ≡ ok price
    → IsAsked config get_gas_price price
asked-IsAsked config get_gas_price price h =
    elim (Bool-cases (str_eq config.gas_price_strategy "static")) [
      | inl static ↦ inl (static, sym (ok-injective (rw static at h)))
      | inr dynamic ↦
          let (p, answer, same) = >>=-eq-ok get_gas_price _ (rw dynamic at h) in
          inr (dynamic, p, answer, sym (ok-injective same))
    ]

IsAsked-le :
    (config : GasConfig) (get_gas_price : Result ℕ) (price : ℤ)
    → pos 0 ≤ℤ config.default_gas_price_wei
    → IsAsked config get_gas_price price
    → pos 0 ≤ℤ price
IsAsked-le config get_gas_price price le (inl (static, e)) = subst (λ z. pos 0 ≤ℤ z) (sym e) le
IsAsked-le config get_gas_price price le (inr (dynamic, p, answer, e)) =
    subst (λ z. pos 0 ≤ℤ z) (sym e) (omega arith)

-- Where the default price is not negative, a computation that goes through changes nothing but the
-- price of the node. Where a maximum is set, that is one over 0, the new price never goes over it: it
-- is the default under the static strategy, and the price that was asked for under any other, and the
-- maximum where these are more. Where none is set, the new price is the maximum itself, 0 or less.
pub compute_gas_price-bounded :
    (config config' : GasConfig) (get_gas_price : Result ℕ)
    → pos 0 ≤ℤ config.default_gas_price_wei
    → compute_gas_price config get_gas_price ≡ ok config'
    → (price : ℤ) × IsAsked config get_gas_price price
      × (config' ≡ record config { gas_price_wei = config'.gas_price_wei })
      × (((is_greater config.max_gas_price_wei (pos 0) ≡ true)
            × (config'.gas_price_wei ≤ℤ config.max_gas_price_wei)
            × (price ≤ℤ config.max_gas_price_wei → config'.gas_price_wei ≡ price)
            × (is_greater price config.max_gas_price_wei ≡ true
                → config'.gas_price_wei ≡ config.max_gas_price_wei))
          ⊎ ((config.max_gas_price_wei ≤ℤ pos 0)
              × (config'.gas_price_wei ≡ config.max_gas_price_wei)))
unfolding compute_gas_price
compute_gas_price-bounded config config' get_gas_price le h =
    let (price, e, h₁) =
      >>=-eq-ok
        (if str_eq config.gas_price_strategy "static"
          then ok config.default_gas_price_wei
          else asked get_gas_price)
        _ h in
    let q = ok-injective h₁ in
    let max = config.max_gas_price_wei in
    let g : config'.gas_price_wei ≡ min_ℤ price max =
      sym (ap (λ (c : GasConfig). c.gas_price_wei) q) in
    let from = asked-IsAsked config get_gas_price price e in
    (
      price,
      from,
      sym q ∙ ap (λ (z : ℤ). record config { gas_price_wei = z }) (sym g),
      elim (Bool-cases (is_greater max (pos 0))) [
        | inl set_ ↦ inl (
          set_,
          subst (λ (z : ℤ). z ≤ℤ max) (sym g) (min-le price max),
          λ under. g ∙ min_le_eq price max under,
          λ over. g ∙ min-greater price max over,
        )
        | inr unset ↦
            let none_ = (is_greater_iff max (pos 0)).0 unset in
            inr (
              none_,
              g ∙ min-nothing price max (IsAsked-le config get_gas_price price le from) none_,
            )
      ],
    )
