-- ===== src/Eth/Args.antt =====
-- mk_args (utils/eth/tx.py).
use qsp_protocol_node.Prelude.{
  ℕ, ℤ, pos, negsuc, String, Option, none, some, Result, ok, raise, value_error,
}

-- What sending reads from the configuration.
pub record Account : Type 0 where
  pub account : String
  pub account_private_key : Option String
  pub gas_limit : Option ℤ
  pub gas_price_wei : ℤ

-- The dictionary of the arguments of a transaction; a key that is not set is `none`.
pub record Args : Type 0 where
  pub from : String
  pub gas : Option ℕ
  pub gas_price : ℤ
  pub nonce : Option ℕ

unfoldable pub mk_args : Account → Result Args
mk_args config = elim config.gas_limit [
  | none ↦
      ok (record {
        from = config.account;
        gas = none;
        gas_price = config.gas_price_wei;
        nonce = none;
      })
  | some limit ↦ elim limit [
    | pos gas_value ↦ ok (record {
      from = config.account;
      gas = some gas_value;
      gas_price = config.gas_price_wei;
      nonce = none;
    })
    | negsuc n ↦ raise (value_error "The gas value is negative")
  ]
]
