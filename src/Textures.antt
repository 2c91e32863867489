-- ===== src/Textures.antt =====
-- frontend/js/textures.js: the size of a texture, and the handle that the two images fill in. Decoding
-- an image and uploading it to the graphics card is an event with its outcome.
pub mod Size
pub mod Handle
