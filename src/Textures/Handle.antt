-- ===== src/Textures/Handle.antt =====
-- frontend/js/textures.js: createEarthTextures and loadOne. A texture has a number.
use orbital_viewer.Base.{
  ℕ, ◌+◌, ◌≡◌, refl, ap, ◌∙◌, Bool, true, false, Option, none, some, List, [], ◌∷◌, ◌++◌, arith,
  if◌then◌else◌,
}

pub data Basemap : Type 0 where
  day night : Basemap

unfoldable pub same_map : Basemap → Basemap → Bool
same_map day day = true
same_map night night = true
same_map _ _ = false

-- `warnings` are the files that console.warn named.
pub record Handle : Type 0 where
  pub day : Option ℕ
  pub night : Option ℕ
  pub version : ℕ
  pub warnings : List Basemap

abbrev pub texture : Basemap → Handle → Option ℕ
texture day h = h.day
texture night h = h.night

unfoldable pub set_texture : Basemap → ℕ → Handle → Handle
set_texture day t h = record h { day = some t }
set_texture night t h = record h { night = some t }

abbrev warn : Basemap → Handle → Handle
warn m h = record h { warnings = h.warnings ++ m ∷ [] }

-- How the synchronous part of loadOne ends: imageFactory throws, the assignment of `src` throws, or
-- the image is requested.
pub data Start : Type 0 where
  no_image no_source requested : Start

unfoldable pub load_one : Basemap → Start → Handle → Handle
load_one m no_image h = warn m h
load_one m no_source h = warn m h
load_one m requested h = h

-- What the browser reports of an image; `uploaded none` is a failure of the upload.
pub data Report : Type 0 where
  uploaded : Basemap → Option ℕ → Report
  failed : Basemap → Report

unfoldable pub report : Handle → Report → Handle
unfolding set_texture
report h (uploaded m (some t)) = let g = set_texture m t h in record g { version = g.version + 1 }
report h (uploaded m none) = warn m h
report h (failed m) = warn m h

unfoldable pub create_earth_textures : (of_day of_night : Start) → Handle
unfolding load_one
create_earth_textures of_day of_night =
    load_one night of_night
      (load_one day of_day (record { day = none; night = none; version = 0; warnings = [] }))

unfoldable pub run_reports : Handle → List Report → Handle
unfolding report
run_reports h [] = h
run_reports h (r ∷ rs) = run_reports (report h r) rs

-- The texture that a list of reports brings for a basemap, after `old`, and how many it brings.
abbrev pub brought : Basemap → Option ℕ → List Report → Option ℕ
brought m old [] = old
brought m old (uploaded n (some t) ∷ rs) = brought m (if same_map n m then some t else old) rs
brought m old (uploaded n none ∷ rs) = brought m old rs
brought m old (failed n ∷ rs) = brought m old rs

abbrev pub successes : List Report → ℕ
successes [] = 0
successes (uploaded n (some t) ∷ rs) = 1 + successes rs
successes (uploaded n none ∷ rs) = successes rs
successes (failed n ∷ rs) = successes rs

run_reports-texture :
    (m : Basemap) (h : Handle) (rs : List Report)
    → texture m (run_reports h rs) ≡ brought m (texture m h) rs
unfolding run_reports set_texture same_map
run_reports-texture m h [] = refl
run_reports-texture m h (uploaded n (some t) ∷ rs) =
    run_reports-texture m (report h (uploaded n (some t))) rs
    ∙ ap (λ o. brought m o rs) (ground arith)
run_reports-texture m h (uploaded n none ∷ rs) =
    run_reports-texture m (report h (uploaded n none)) rs ∙ ap (λ o. brought m o rs) (ground arith)
run_reports-texture m h (failed n ∷ rs) =
    run_reports-texture m (report h (failed n)) rs ∙ ap (λ o. brought m o rs) (ground arith)

run_reports-version :
    (h : Handle) (rs : List Report) → (run_reports h rs).version ≡ h.version + successes rs
unfolding run_reports set_texture
run_reports-version h [] = omega arith
run_reports-version h (uploaded day (some t) ∷ rs) =
    ground (arith, run_reports-version (report h (uploaded day (some t))) rs)
run_reports-version h (uploaded night (some t) ∷ rs) =
    ground (arith, run_reports-version (report h (uploaded night (some t))) rs)
run_reports-version h (uploaded n none ∷ rs) =
    ground (arith, run_reports-version (report h (uploaded n none)) rs)
run_reports-version h (failed n ∷ rs) = ground (arith, run_reports-version (report h (failed n)) rs)

no_texture : (a b : Start) (m : Basemap) → texture m (create_earth_textures a b) ≡ none
unfolding create_earth_textures
no_texture a b m = ground arith

no_version : (a b : Start) → (create_earth_textures a b).version ≡ 0
unfolding create_earth_textures
no_version a b = ground arith

-- However the two loads start and whatever the browser reports, in any order: each field of the
-- handle holds the texture of the last upload of its own basemap that worked, and null before, and
-- the version counts the uploads that worked; so no failure touches the other texture.
pub run_reports-create_earth_textures :
    (of_day of_night : Start) (rs : List Report) (m : Basemap)
    → let h = run_reports (create_earth_textures of_day of_night) rs in
      (texture m h ≡ brought m none rs) × (h.version ≡ successes rs)
run_reports-create_earth_textures of_day of_night rs m = (
  run_reports-texture m _ rs ∙ ap (λ o. brought m o rs) (no_texture of_day of_night m),
  omega (
    arith,
    run_reports-version (create_earth_textures of_day of_night) rs,
    no_version of_day of_night,
  ),
)
