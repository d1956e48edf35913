-- ===== src/Providers.antt =====
-- features/providers: the browser-owned LLM providers.
pub mod Auth
pub mod OpenRouter
pub mod OpenCodeZen
pub mod Profiles
pub mod Store
pub mod Readiness
pub mod Models
pub mod Hooks
pub mod Registry
pub mod Settings
mod Tests
