-- ===== src/Providers/Settings.antt =====
-- features/providers/settings: the dialog that edits providers, keys and models.
pub mod Form
pub mod Keys
pub mod ModelChoice
pub mod Dialog
mod Tests
