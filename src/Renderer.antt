-- ===== src/Renderer.antt =====
-- frontend/js/renderer.js: what the renderer keeps on the processor's side, and what it draws. In
-- Scene, Trails, TrailBuffer, Pick and State floating-point arithmetic is a parameter; comparisons are
-- those of Num. The shaders and the state of WebGL are not modelled.
pub mod Scene
pub mod Trails
pub mod TrailBuffer
pub mod Pick
pub mod State
pub mod Mesh
pub mod SkyBuffers
pub mod Projection
pub mod Overlay
pub mod Frame
