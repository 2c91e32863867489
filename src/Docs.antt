-- ===== src/Docs.antt =====
-- The documentation site's script (docs/site/assets/docs.js).
pub mod Langs
pub mod Highlight
pub mod Nav
pub mod Search
pub mod Links
