-- ===== src/Threads.antt =====
-- features/threads: titles, the bootstrap envelope, and the history of a thread.
pub mod Units
pub mod Title
pub mod Route
pub mod Bootstrap
pub mod Decode
pub mod History
pub mod Head
pub mod HeadSync
mod Tests
