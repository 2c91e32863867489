-- ===== src/Lib.antt =====
-- The browser client of the viewer of orbital objects, frontend/js: it reads config.toml and stored
-- settings, holds a WebSocket to the backend, parses the backend's frames into a model of the scene,
-- and shows the model in a WebGL view and a panel. The script of the documentation site,
-- docs/site/assets/docs.js, stands on its own.
--
-- How the parts interact: main.js loads config.toml (site_config.js, toml.js), creates the
-- settings store (settings.js), the connection (net.js), the model (model.js), the renderer
-- (renderer.js, camera.js, sat_camera.js, math3.js, textures.js) and the panel (ui.js). A frame
-- goes from the connection to the model and from there to the renderer and the panel; a change of
-- the settings goes to the renderer, to the panel, and to the connection if the host or the port
-- changed.
--
-- Which file models which part:
--   Base      lists, texts, Boolean tests and exceptions as values, shared by all
--   Num       JavaScript numbers as signed dyadic fractions, infinities and NaN; Order compares
--             them, Arith is rounded arithmetic and Arith/Bounds how far it rounds; Arrays is a typed
--             array as the list of its numbers
--   Value     JavaScript values as JSON.parse and the TOML parser make them
--   Toml      frontend/js/toml.js: Scan (character tests, parseQuotedString), Scalar (parseScalar),
--             Document (parseToml; Lines and Keys for its theorems)
--   SiteConfig    frontend/js/site_config.js: the schema and loadSiteConfig; Entries is the order of
--             an object's properties, Keys and Laws the theorems
--   Settings  frontend/js/settings.js: Patch (applyPatch, clampInt), Store (createSettings and its
--             methods); Bounds, Sessions, Persistence and Listeners for its theorems
--   Net       frontend/js/net.js: Message (parseStateMessage and its helpers), Connection
--             (createConnection as a step function on its variables, the pending timers and a log)
--   Model     frontend/js/model.js
--   Renderer  frontend/js/renderer.js: Scene (normalizeSettings, worldFromMeters,
--             rebuildObjectBuffer), Trails (appendTrails), TrailBuffer (rebuildTrailBuffer), Pick,
--             State (setSnapshot, setSettings, setSelected, the clock), Mesh (buildSphere,
--             buildGraticule), SkyBuffers (rebuildSky and the sizes by magnitude), Projection (resize,
--             computeActiveView, projectToScreen, pick with them), Overlay (drawOverlay), Frame (frame
--             and the draw helpers)
--   Camera    frontend/js/camera.js: the handlers and the clamping, and Eye (getEye, getViewMatrix)
--   Math3     frontend/js/math3.js
--   SatCamera frontend/js/sat_camera.js
--   Textures  frontend/js/textures.js: Size (potSizeFor), Handle (loadOne, createEarthTextures)
--   Main      frontend/js/main.js: App (the settings store and the connection in boot), Client (the
--             model, the renderer and the panel in boot), Dragging (wireOverlayPicking), View
--             (applyRendererSettings)
--   Sky       frontend/js/sky.js, sun.js and star_catalog.js: angles and times, Bodies (the Sun and
--             the Moon), Planets, Catalog, Stars (STAR_ECI and starsEcefInto)
--   Atlas     frontend/js/atlas.js: the calls of a canvas context as data, Icons and Marker (the
--             painters), Paint (paintAtlas, iconUV), Origin (a canvas, as a specification)
--   Docs      docs/site/assets/docs.js: Langs and Highlight (highlight), Nav (NAV and FLAT), Search
--             (runSearch), Links (the sidebar, the breadcrumbs, the neighbouring pages)
--   Ui        frontend/js/ui.js: the closure's variables and what the panel shows; Panel has its texts,
--             Choices what the fields and the view buttons do to the settings, Memory what its
--             events leave to be shown
--   Tests     runs of the parser, and the theorems at concrete inputs
--
-- Conventions. An index into a line that only moves forward is the rest of the line. A Map is a list
-- of pairs in insertion order. Exceptions are values (Base.Outcome). What the environment decides, a
-- socket that cannot be made, a timer that fires, an upload that fails, stands in the events of a
-- step function. Code outside the repository is a parameter: JSON and the string conversions of
-- Number() for the settings, Date.parse for the renderer and the panel, Math.exp for the camera, the
-- functions of Math for the sky, the views and the atlas, the rounding of a number to the elements of
-- a Float32Array, String() and toFixed of numbers for the labels and the panel, the engine of regular
-- expressions and toLowerCase for the documentation site, and the generated search index; comparisons
-- of numbers are exact. Scene, Trails, TrailBuffer, Pick and State hold for any addition, subtraction,
-- multiplication, division and Math.hypot; all else adds, subtracts, multiplies and divides as IEEE
-- 754 has it (Num.Arith), and Projection puts that arithmetic in place of the parameters. What
-- rebuildSky makes of the epoch is a parameter of State, in whose place Frame.Fits puts the function
-- sky_at of SkyBuffers.Rebuilt. The screen projection and the test for what the Earth hides are
-- parameters of Pick, which Projection fills.
--
-- Fuel. Num rounds with fuel 2046, the number of exponents of a double. `grow` has as much fuel as
-- numbers to write, and a theorem shows that it is enough; `double_up` has the bound itself as fuel,
-- and a theorem shows that its result is the greatest power. `claim` has two more turns than the text
-- has characters, and a theorem shows that it ends where no match is empty.
--
-- Not modelled: the GLSL shaders, the uniforms and the setting up of WebGL's programs, buffers and
-- textures, which are calls of WebGL without logic of their own; the state of WebGL between draw
-- calls; colours and fonts of the overlay; what the panel does about nodes that the page lacks; what the
-- fields of a closed settings form hold; the
-- anchors of headings and the events of the documentation site; the animation loop and the fatal error
-- text of main.js; and the programs in C++ under src, include and tools.
pub mod Base
pub mod Num
pub mod Value
pub mod Toml
pub mod SiteConfig
pub mod Settings
pub mod Net
pub mod Model
pub mod Renderer
pub mod Sky
pub mod Math3
pub mod SatCamera
pub mod Docs
pub mod Atlas
pub mod Textures
pub mod Main
pub mod Camera
pub mod Ui
mod Tests
