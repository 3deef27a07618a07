-- ===== src/Config/Components/Unchecked.antt =====
-- The analyzers are created after the checks, which see none of them.
use qsp_protocol_node.Prelude.{◌≡◌, refl, Bool, List, ok, >>=-eq-ok, ok-injective, ap}
use qsp_protocol_node.Report.Types.{initialize_vulnerability_types}
use qsp_protocol_node.Config.Values.{Value, is_true}
use qsp_protocol_node.Config.Settings.{Settings}
use qsp_protocol_node.Config.Analyzers.{AnalyzerSettings, create_analyzers}
use qsp_protocol_node.Config.Components.{World, Components, connected_components, create_components}
use qsp_protocol_node.Upload.{create_upload_provider}

-- Other analyzers in the settings change nothing for the client and the checks.
connected_components-analyzers :
    (world : World) (config : Settings) (account_passwd analyzers_config : Value) (b : Bool)
    → connected_components world
        (record config { analyzers_config = analyzers_config })
        account_passwd
        b
      ≡ connected_components world config account_passwd b
unfolding connected_components
connected_components-analyzers world config account_passwd analyzers_config b = refl

-- No check looks at the analyzers: where a node can be created, it can be created with any other
-- analyzers whose wrappers can be, whatever timeouts they have, and nothing else of it changes.
pub create_components-unchecked :
    (world : World) (config : Settings) (account_passwd analyzers_config : Value) (b : Bool)
    (components : Components)
    → (analyzers : List AnalyzerSettings)
    → create_components world config account_passwd b ≡ ok components
    → create_analyzers world.reads.home world.temp analyzers_config ≡ ok analyzers
    → create_components world
        (record config { analyzers_config = analyzers_config })
        account_passwd
        b
      ≡ ok (record components { analyzers = analyzers })
unfolding create_components
create_components-unchecked world config account_passwd analyzers_config b components analyzers h
      created =
    let (connected, d, c₁) = >>=-eq-ok (connected_components world config account_passwd b) _ h in
    let (old, a, c₂) =
      >>=-eq-ok (create_analyzers world.reads.home world.temp config.analyzers_config) _ c₁ in
    let (pool, p, c₃) = >>=-eq-ok (world.open_pool config.evt_db_path) _ c₂ in
    let (names, n, c₄) = >>=-eq-ok world.vulnerability_names _ c₃ in
    let (types, t, c₅) = >>=-eq-ok (initialize_vulnerability_types names) _ c₄ in
    let (upload, u, c₆) =
      >>=-eq-ok
        (create_upload_provider connected.account config.upload_provider_name
          config.upload_provider_args (is_true config.upload_provider_is_enabled))
        _ c₅ in
    let parts = ok-injective c₆ in
    rw (connected_components-analyzers world config account_passwd analyzers_config b) (
      rw d (
        rw created (
          rw p (
            rw n (
              rw t
                (rw u (ap (λ (x : Components). ok (record x { analyzers = analyzers })) parts)))))))
