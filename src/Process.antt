-- ===== src/Process.antt =====
-- features/process-panel: the panel that shows what a run does. What a component renders is a record
-- of what it says and offers; class names are left out but where they depend on the state. Texts are
-- UTF-16 code units.
pub mod State
pub mod Status
pub mod Depth
pub mod Notice
pub mod Cards
pub mod Activity
pub mod Previews
pub mod Tabs
mod Tests
