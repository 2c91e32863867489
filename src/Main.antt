-- ===== src/Main.antt =====
-- frontend/js/main.js: how boot() wires the settings, the connection and the renderer together.
pub mod App
pub mod Dragging
pub mod View
pub mod Client
