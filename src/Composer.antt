-- ===== src/Composer.antt =====
-- components/assistant-ui/composer-elements.tsx: the model picker of the composer.
pub mod Picker
