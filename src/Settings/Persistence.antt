-- ===== src/Settings/Persistence.antt =====
-- frontend/js/settings.js: what is stored is loaded back.
use orbital_viewer.Base.{
  ℕ, ◌≤◌, ◌≡◌, refl, ap, ◌∙◌, ◌≢◌, true, some, [], ◌∷◌, arith, Text, codes, ◌===◌, lookup,
}
use orbital_viewer.Num.{whole}
use orbital_viewer.Settings.Bounds.{IsValid, IsValidStore}
use orbital_viewer.Settings.Patch.{
  Settings, Categories, ViewMode, orbit, sat, Conversions, clamp_int, apply_patch,
}
use orbital_viewer.Settings.Sessions.{update-IsValid}
use orbital_viewer.Settings.Store.{
  stored_text, as_object, Json, Storage, Store, load_stored, normalize, create_settings, update,
  reset_defaults,
}
use orbital_viewer.Value.{Value, Fields, obj, bool, num, str, field, end, get, is_in, truthy}

abbrev pub encode_view_mode : ViewMode → Value
encode_view_mode orbit = str (codes "orbit")
encode_view_mode sat = str (codes "sat")

abbrev pub encode_categories : Categories → Fields
encode_categories k = field (codes "debris") (bool k.debris) (
    field (codes "star") (bool k.star) (
      field (codes "comet") (bool k.comet) (
        field (codes "satellite") (bool k.satellite) (
          field (codes "groundHot") (bool k.ground_hot)
            (field (codes "unknown") (bool k.unknown) end)))))

-- The object that holds the settings, which JSON text carries.
unfoldable pub encode : Settings → Fields
encode s = field (codes "showTrails") (bool s.show_trails) (
    field (codes "trailSeconds") (num (whole s.trail_seconds)) (
      field (codes "showLabels") (bool s.show_labels) (
        field (codes "showSky") (bool s.show_sky) (
          field (codes "viewMode") (encode_view_mode s.view_mode) (
            field (codes "categories") (obj (encode_categories s.categories)) (
              field (codes "host") (str s.host)
                (field (codes "port") (num (whole s.port)) end)))))))

clamp_int-whole :
    (c : Conversions) (n lo hi fallback : ℕ)
    → lo ≤ n
    → n ≤ hi
    → clamp_int c (num (whole n)) lo hi fallback ≡ n
unfolding clamp_int
clamp_int-whole c n lo hi fallback h k = omega arith

-- Patched with all fields of valid settings, any base becomes those settings.
apply_patch-encode :
    (c : Conversions) (base s : Settings) → IsValid s → apply_patch c base (encode s) ≡ s
unfolding apply_patch encode get is_in lookup ◌===◌ truthy
apply_patch-encode c base s h =
    rw
      (
        clamp_int-whole c s.trail_seconds 0 60 base.trail_seconds (omega arith) h.trail_seconds-le,
        clamp_int-whole c s.port 1 65_535 base.port h.port_pos h.port-le,
      )
      (ground arith)

-- What the store relies on of JSON.parse and JSON.stringify: settings come back as the object that
-- holds them, and their text is not empty.
pub record IsJson (json : Json) : Type 0 where
  pub parse-stringify : (s : Settings) → json.parse (json.stringify s) ≡ some (obj (encode s))
  pub stringify-ne-nil : (s : Settings) → json.stringify s ≢ []

module _ (c : Conversions) (json : Json) where
  stored_text_of_ne_nil :
      (t : Text) → t ≢ [] → stored_text c json (some t) ≡ as_object (json.parse t)
  unfolding stored_text
  stored_text_of_ne_nil [] h = absurd (h refl)
  stored_text_of_ne_nil (u ∷ t) h = refl

  load_stored-stringify :
      (s : Settings) (storage : Storage)
      → IsJson json
      → storage.readable ≡ true
      → storage.item ≡ some (json.stringify s)
      → load_stored c json storage ≡ some (encode s)
  unfolding load_stored
  load_stored-stringify s storage j r e =
      rw (r, e)
        (stored_text_of_ne_nil (json.stringify s) (j.stringify-ne-nil s)
          ∙ ap as_object (j.parse-stringify s))

  create_settings-stringify :
      (s : Settings) (storage : Storage) (site : Value)
      → IsJson json
      → IsValid s
      → storage.readable ≡ true
      → storage.item ≡ some (json.stringify s)
      → (create_settings c json storage site).current ≡ s
  unfolding create_settings normalize
  create_settings-stringify s storage site j h r e =
      rw (load_stored-stringify s storage j r e) (apply_patch-encode c _ s h)

  update-storage :
      (s : Store) (patch : Fields)
      → s.storage.writable ≡ true
      → let t = update c json s (obj patch) in
        (t.storage.item ≡ some (json.stringify t.current))
        × (t.storage.readable ≡ s.storage.readable)
  unfolding update
  update-storage s patch w = ground arith

  reset_defaults-storage :
      (s : Store)
      → s.storage.writable ≡ true
      → let t = reset_defaults c json s in
        (t.storage.item ≡ some (json.stringify t.current))
        × (t.storage.readable ≡ s.storage.readable)
  unfolding reset_defaults
  reset_defaults-storage s w = ground arith

  -- Where the storage works, what a user sets survives a reload, under any site configuration: a
  -- store created over the storage that an update left has the settings of that update.
  pub create_settings-update :
      (s : Store) (patch : Fields) (site : Value)
      → IsJson json
      → IsValidStore c json s
      → s.storage.readable ≡ true
      → s.storage.writable ≡ true
      → let t = update c json s (obj patch) in
        (create_settings c json t.storage site).current ≡ t.current
  create_settings-update s patch site j h r w =
      let (item, readable) = update-storage s patch w in
      let valid = update-IsValid c json s (obj patch) h in
      create_settings-stringify _ _ site j valid (readable ∙ r) item
