-- ===== src/Toml.antt =====
-- frontend/js/toml.js: the parser of the TOML subset, in the order of the source. An index into a
-- line that only moves forward is the rest of the line from there. Children: `Scalar` (parseScalar)
-- and `Document` (parseToml).
pub mod Scan
pub mod Scalar
pub mod Document
