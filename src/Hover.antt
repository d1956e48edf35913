-- ===== src/Hover.antt =====
-- hooks/use-fluid-hover.ts: which item of a list is highlighted under the pointer.
pub mod Numbers
pub mod Nearest
pub mod Measure
mod Tests
