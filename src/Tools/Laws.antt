-- ===== src/Tools/Laws.antt =====
-- That the filter of the catalog shows no tool that can change something.
use fleet_agent.Base.{
  ◌≡◌, refl, sym, subst, true, false, List, [], ◌∷◌, ◌==◌, All, map, keep, Bool-cases, inl, inr,
}
use fleet_agent.Threads.Route.{Query, pending, failed, succeeded}
use fleet_agent.Tools.{
  Capability, retrieval, utility, artifact, workspace_read, workspace_write, shell,
  ToolCatalogEntry, ToolCard, tool_card, ToolsBody, cards, tools_page, capability_label,
  listed_tools,
}

-- A card that does not say "Mutation".
abbrev pub IsHarmless : ToolCard → Type 0
IsHarmless c = (c.capability_label == "Mutation") ≡ false

harmless_label : (c : Capability) → (capability_label c true == "Mutation") ≡ false
harmless_label retrieval = refl
harmless_label utility = refl
harmless_label artifact = refl
harmless_label workspace_read = refl
harmless_label workspace_write = refl
harmless_label shell = refl

tool_card-IsHarmless : (t : ToolCatalogEntry) → t.read_only ≡ true → IsHarmless (tool_card t)
unfolding tool_card
tool_card-IsHarmless t h =
    subst (λ b. (capability_label t.capability b == "Mutation") ≡ false) (sym h)
      (harmless_label t.capability)

map-IsHarmless :
    (ts : List ToolCatalogEntry)
    → All IsHarmless (map tool_card (keep (λ (t : ToolCatalogEntry). t.read_only) ts))
map-IsHarmless [] = tt
map-IsHarmless (t ∷ ts) = elim (Bool-cases t.read_only) [
  | inl e ↦ simp e (tool_card-IsHarmless t e, map-IsHarmless ts)
  | inr e ↦ simp e (map-IsHarmless ts)
]

abbrev cards_of : ToolsBody → List ToolCard
cards_of (cards cs) = cs
cards_of _ = []

listed_cards :
    (ts : List ToolCatalogEntry)
    → All IsHarmless (map tool_card ts)
    → All IsHarmless (cards_of (listed_tools true ts))
listed_cards [] h = tt
listed_cards (t ∷ ts) h = h

filtered_cards :
    (ts : List ToolCatalogEntry) → All IsHarmless (cards_of (tools_page (succeeded ts) true).body)
unfolding tools_page
filtered_cards ts =
    listed_cards (keep (λ (t : ToolCatalogEntry). t.read_only) ts) (map-IsHarmless ts)

-- With the switch on, no card of the catalog is labelled "Mutation", however the query stands.
pub tools_page-IsHarmless :
    (q : Query (List ToolCatalogEntry)) (cs : List ToolCard)
    → (tools_page q true).body ≡ cards cs
    → All IsHarmless cs
unfolding tools_page
tools_page-IsHarmless pending cs h = cc
tools_page-IsHarmless failed cs h = cc
tools_page-IsHarmless (succeeded ts) cs h =
    subst (λ (b : ToolsBody). All IsHarmless (cards_of b)) h (filtered_cards ts)
