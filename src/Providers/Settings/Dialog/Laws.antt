-- ===== src/Providers/Settings/Dialog/Laws.antt =====
-- That the card of the active provider says what a run would be told.
use fleet_agent.Base.{true, Option}
use fleet_agent.Providers.Profiles.{ProviderProfile}
use fleet_agent.Providers.Settings.Dialog.{ProviderCard, Caption, icon_of}

-- The card of a provider that is active, with what it says below the name.
abbrev pub active_card : ProviderProfile → Caption → ProviderCard
active_card p caption = record {
  id = p.id;
  name = p.name;
  icon = icon_of p.id;
  selected = true;
  caption = caption;
}
