-- ===== src/Projects.antt =====
-- features/projects/project-sidebar.tsx: the sidebar with its projects, threads and dialogs.
pub mod NameDialog
pub mod Section
pub mod Sidebar
mod Tests
