-- ===== src/Main/View.antt =====
-- frontend/js/main.js: applyRendererSettings, and what the renderer makes of it.
use orbital_viewer.Settings.Persistence.{encode_categories}
use orbital_viewer.Num.{lt, whole}
use orbital_viewer.Settings.Bounds.{IsValid}
use orbital_viewer.Net.Message.{unknown, ground_hot, satellite, comet, star, debris, Category}
use orbital_viewer.Value.{end, str, num, field, truthy, obj, Value, get, bool}
use orbital_viewer.Renderer.Scene.{clamp, category_key, not_false, normalize_settings}
use orbital_viewer.Settings.Patch.{sat, orbit, Categories, ViewMode, Settings}
use orbital_viewer.Base.{ℕ, ◌≤◌, ◌≡◌, refl, Bool, true, false, arith, Text, codes, ◌===◌, lookup}

abbrev view_mode_text : ViewMode → Text
view_mode_text orbit = codes "orbit"
view_mode_text sat = codes "sat"

-- The object that applyRendererSettings passes on.
unfoldable pub renderer_settings : Settings → Value
renderer_settings s = obj (
    field (codes "showTrails") (bool s.show_trails) (
      field (codes "trailSeconds") (num (whole s.trail_seconds)) (
        field (codes "showLabels") (bool s.show_labels) (
          field (codes "showSky") (bool s.show_sky) (
            field (codes "categories") (obj (encode_categories s.categories))
              (field (codes "viewMode") (str (view_mode_text s.view_mode)) end))))))

abbrev pub wants : Categories → Category → Bool
wants c debris = c.debris
wants c star = c.star
wants c comet = c.comet
wants c satellite = c.satellite
wants c ground_hot = c.ground_hot
wants c unknown = c.unknown

abbrev pub is_sat_view : ViewMode → Bool
is_sat_view sat = true
is_sat_view orbit = false

-- A whole number within bounds is not changed.
clamp-whole : (hi n : ℕ) → n ≤ hi → clamp 0 hi (whole n) ≡ whole n
unfolding clamp lt
clamp-whole hi n h = ground (arith, h)

not_false-bool : (b : Bool) → not_false (bool b) ≡ b
not_false-bool true = refl
not_false-bool false = refl

-- The renderer draws by the settings as they are: with valid settings, normalizing what it is passed
-- changes no flag, no category, not the view mode, and not the trail's length.
pub normalize_settings-renderer_settings :
    (s : Settings)
    → IsValid s
    → let v = normalize_settings (renderer_settings s) in
      (v.show_trails ≡ s.show_trails)
      × (v.trail_seconds ≡ whole s.trail_seconds)
      × (v.show_labels ≡ s.show_labels)
      × (v.show_sky ≡ s.show_sky)
      × (v.is_sat ≡ is_sat_view s.view_mode)
      × ((cat : Category) → v.shown cat ≡ wants s.categories cat)
unfolding normalize_settings renderer_settings get lookup ◌===◌ truthy
normalize_settings-renderer_settings s h = (
  refl,
  clamp-whole 60 s.trail_seconds h.trail_seconds-le,
  refl,
  not_false-bool s.show_sky,
  mode s.view_mode,
  shown s.categories,
)
  where
    mode : (m : ViewMode) → (view_mode_text m === codes "sat") ≡ is_sat_view m
    mode orbit = refl
    mode sat = refl

    shown :
        (cs : Categories) (cat : Category)
        → not_false (get (category_key cat) (encode_categories cs)) ≡ wants cs cat
    shown cs debris = not_false-bool cs.debris
    shown cs star = not_false-bool cs.star
    shown cs comet = not_false-bool cs.comet
    shown cs satellite = not_false-bool cs.satellite
    shown cs ground_hot = not_false-bool cs.ground_hot
    shown cs unknown = not_false-bool cs.unknown
