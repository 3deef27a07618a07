-- ===== src/Main.antt =====
-- Program.run and what follows it (__main__.py), and ConfigFactory.create_from_dictionary
-- (config/config_factory.py). That a file to audit is given ends in an AttributeError: the node has no
-- method get_full_report.
use qsp_protocol_node.Prelude.{
  ℕ, ◌≡◌, refl, String, Bool, true, false, Option, none, some, if◌then◌else◌, arith, Result, ok,
  raise, Exn, key_error, other, ◌>>=◌, Result-cases, ap, sym, ◌∙◌, inl, inr,
}
use qsp_protocol_node.Config.Values.{Value, mapping, find_entry}
use qsp_protocol_node.Config.Components.{World, Config, load_dictionary}

-- `dictionary[environment]`
unfoldable pub environment_of : Value → String → Result Value
unfolding find_entry
environment_of (mapping entries) environment = elim (find_entry environment entries) [
  | none ↦ raise key_error
  | some config ↦ ok config
]
environment_of _ environment = raise (other "not subscriptable")

unfoldable pub create_from_dictionary :
    World → Value → String → Value → Value → Bool → Result Config
unfolding environment_of load_dictionary
create_from_dictionary world dictionary environment account_passwd auth_token
      validate_contract_settings =
    do
      config ← environment_of dictionary environment
      load_dictionary world config account_passwd auth_token validate_contract_settings

-- How a run ends: whether a node was registered to be stopped, whether `stop` was called, and what
-- goes on to the caller.
pub record Ended : Type 0 where
  pub registered : Bool
  pub stopped : Bool
  pub raised : Option Exn

-- The node after it is made. `start` and `stop` are those of the node; an exception of `stop` goes on
-- in place of the one of `start`.
unfoldable pub run_node : Bool → Result (Unit {0}) → Result (Unit {0}) → Ended
run_node has_sol_file start stop =
    if has_sol_file
    then record {
      registered = true;
      stopped = false;
      raised = some (other "no attribute 'get_full_report'");
    }
    else elim start [
      | ok done ↦ record { registered = true; stopped = false; raised = none }
      | raise e ↦ elim stop [
        | ok done ↦ record { registered = true; stopped = true; raised = some e }
        | raise e' ↦ record { registered = true; stopped = true; raised = some e' }
      ]
    ]

-- The configuration and the node that is made of it: `make` is the constructor of QSPAuditNode, which
-- asks for the gas price and so may raise.
unfoldable pub make_node :
    World → Value → String → Value → Value → (Config → Result (Unit {0})) → Result Config
unfolding create_from_dictionary
make_node world yaml_config env eth_passphrase eth_auth_token make = do
  cfg ← create_from_dictionary world yaml_config env eth_passphrase eth_auth_token true
  audit_node ← make cfg
  ok cfg

-- `is_police_officer` is only logged, and never raises.
unfoldable pub run :
    World
    → Value
    → String
    → Value
    → Value
    → Bool
    → (Config → Result (Unit {0}))
    → (Config → Result (Unit {0}))
    → (Config → Result (Unit {0}))
    → Ended
unfolding make_node run_node
run world yaml_config env eth_passphrase eth_auth_token has_sol_file make start stop =
    elim (make_node world yaml_config env eth_passphrase eth_auth_token make) [
      | raise e ↦ record { registered = false; stopped = false; raised = some e }
      | ok cfg ↦ run_node has_sol_file (start cfg) (stop cfg)
    ]

-- The exit code of the process: an exception is logged, and the code makes it start again.
unfoldable pub exit_code : Ended → ℕ
exit_code ended = elim ended.raised [ none ↦ 0 | some e ↦ 1 ]

run_node-started :
    (b : Bool) (start stop : Result (Unit {0}))
    → exit_code (run_node b start stop) ≡ 0
    → (start ≡ ok tt) × (b ≡ false)
unfolding exit_code run_node
run_node-started true start stop h = absurd (omega arith)
run_node-started false (ok done) stop h = (refl, refl)
run_node-started false (raise e) (ok done) h = absurd (omega arith)
run_node-started false (raise e) (raise e') h = absurd (omega arith)

module _ (world : World) (yaml_config : Value) (env : String)
    (eth_passphrase eth_auth_token : Value) (has_sol_file : Bool)
    (make start stop : Config → Result (Unit {0})) where
  run_loaded :
      (cfg : Config)
      → make_node world yaml_config env eth_passphrase eth_auth_token make ≡ ok cfg
      → run world yaml_config env eth_passphrase eth_auth_token has_sol_file make start stop
        ≡ run_node has_sol_file (start cfg) (stop cfg)
  unfolding run
  run_loaded cfg r = rw (r, run) refl

  run_failed :
      (e : Exn)
      → make_node world yaml_config env eth_passphrase eth_auth_token make ≡ raise e
      → exit_code
          (run world yaml_config env eth_passphrase eth_auth_token has_sol_file make start stop)
        ≡ 1
  unfolding run exit_code
  run_failed e r = rw (r, run, exit_code) refl

  -- The process ends with 0 only if its configuration was loaded and its node made, no file to audit was
  -- given, and the node has started and gone through its loop to the end.
  pub exit_code-started :
      exit_code
          (run world yaml_config env eth_passphrase eth_auth_token has_sol_file make start stop)
        ≡ 0
      → (cfg : Config) × (make_node world yaml_config env eth_passphrase eth_auth_token make
          ≡ ok cfg)
        × (start cfg ≡ ok tt)
        × (has_sol_file ≡ false)
  exit_code-started h =
      elim (Result-cases (make_node world yaml_config env eth_passphrase eth_auth_token make)) [
        | inr (e, r) ↦ let one = run_failed e r in absurd (omega arith)
        | inl (cfg, r) ↦
            let (started, file) =
              run_node-started has_sol_file (start cfg) (stop cfg)
                (ap exit_code (sym (run_loaded cfg r)) ∙ h) in
            (cfg, r, started, file)
      ]
