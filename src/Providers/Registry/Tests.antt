-- ===== src/Providers/Registry/Tests.antt =====
-- Runs of the provider registry in a small tab.
use fleet_agent.Base.{◌≡◌, some, [], ◌∷◌}
use fleet_agent.Providers.Tests.{tab, mine}
use fleet_agent.Providers.Readiness.{get_provider_readiness}
use fleet_agent.Providers.Registry.{choose, save, delete, read_providers, edit_all, readiness}
use fleet_agent.Providers.Registry.Laws.{edit_all-readiness}

edit_all-readiness_example :
    readiness
      (edit_all (save mine ∷ choose (some "mine") ∷ delete "mine" ∷ []) (read_providers tab))
    ≡ get_provider_readiness
        (edit_all (save mine ∷ choose (some "mine") ∷ delete "mine" ∷ []) (read_providers tab)).0
edit_all-readiness_example =
    edit_all-readiness (save mine ∷ choose (some "mine") ∷ delete "mine" ∷ []) tab
