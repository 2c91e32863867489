-- ===== src/Net.antt =====
-- frontend/js/net.js: the WebSocket protocol (`Message`) and the connection (`Connection`).
pub mod Message
pub mod Connection
