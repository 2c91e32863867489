-- ===== src/Settings.antt =====
-- frontend/js/settings.js: the settings store. Settings are values here, so `clone` is the identity.
-- JSON.parse, JSON.stringify and the conversion of strings and objects to numbers are parameters.
pub mod Patch
pub mod Store
pub mod Bounds
pub mod Persistence
pub mod Sessions
pub mod Listeners
