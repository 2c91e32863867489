-- ===== src/Ui/Choices.antt =====
-- What the choices in the settings form and of the view do to the settings (frontend/js/ui.js with
-- frontend/js/settings.js).
use orbital_viewer.Settings.Patch.{
  Settings, Categories, Conversions, ViewMode, orbit, sat, apply_patch, clamp_int,
}
use orbital_viewer.Settings.Store.{Json, Store, update, reset_defaults, persist, notify}
use orbital_viewer.Value.{num, obj, Fields, get, is_in, truthy}
use orbital_viewer.Net.Message.{Category, debris, star, comet, satellite, ground_hot, unknown}
use orbital_viewer.Ui.{
  FieldChange, trails_changed, labels_changed, sky_changed, category_changed, host_changed,
  trail_seconds_changed, port_changed, field_patch, view_patch, mode_text, other_mode,
}
use orbital_viewer.Base.{◌≡◌, refl, inl, inr, Bool, Bool-cases, ◌===◌, lookup}

-- The other view.
abbrev pub turned : ViewMode → ViewMode
turned orbit = sat
turned sat = orbit

abbrev set_category : Category → Bool → Categories → Categories
set_category debris b k = record k { debris = b }
set_category star b k = record k { star = b }
set_category comet b k = record k { comet = b }
set_category satellite b k = record k { satellite = b }
set_category ground_hot b k = record k { ground_hot = b }
set_category unknown b k = record k { unknown = b }

module _ (c : Conversions) where
  -- A field sets its own setting, and no other; a number is brought into its range.
  abbrev pub set_field : FieldChange → Settings → Settings
  set_field (trails_changed b) s = record s { show_trails = b }
  set_field (labels_changed b) s = record s { show_labels = b }
  set_field (sky_changed b) s = record s { show_sky = b }
  set_field (category_changed k b) s = record s { categories = set_category k b s.categories }
  set_field (host_changed t) s = record s { host = t }
  set_field (trail_seconds_changed x) s = record s {
    trail_seconds = clamp_int c (num x) 0 60 s.trail_seconds;
  }
  set_field (port_changed x) s = record s { port = clamp_int c (num x) 1 65_535 s.port }

  pub apply_patch-field_patch :
      (s : Settings) (f : FieldChange) → apply_patch c s (field_patch f) ≡ set_field f s
  unfolding apply_patch field_patch get is_in truthy lookup ◌===◌
  apply_patch-field_patch s (trails_changed b) = refl
  apply_patch-field_patch s (labels_changed b) = refl
  apply_patch-field_patch s (sky_changed b) = refl
  apply_patch-field_patch s (category_changed debris b) = refl
  apply_patch-field_patch s (category_changed star b) = refl
  apply_patch-field_patch s (category_changed comet b) = refl
  apply_patch-field_patch s (category_changed satellite b) = refl
  apply_patch-field_patch s (category_changed ground_hot b) = refl
  apply_patch-field_patch s (category_changed unknown b) = refl
  apply_patch-field_patch s (host_changed t) = refl
  apply_patch-field_patch s (trail_seconds_changed x) = refl
  apply_patch-field_patch s (port_changed x) = refl

  pub apply_patch-mode_text :
      (s : Settings) (m : ViewMode)
      → apply_patch c s (view_patch (mode_text m)) ≡ record s { view_mode = m }
  unfolding apply_patch get is_in lookup ◌===◌
  apply_patch-mode_text s orbit = refl
  apply_patch-mode_text s sat = refl

  pub apply_patch-other_mode :
      (s : Settings) (m : ViewMode)
      → apply_patch c s (view_patch (other_mode m)) ≡ record s { view_mode = turned m }
  unfolding apply_patch get is_in lookup ◌===◌
  apply_patch-other_mode s orbit = refl
  apply_patch-other_mode s sat = refl

  module _ (json : Json) where
    -- Storing and calling the listeners changes neither the settings nor their defaults.
    told :
        (s : Store)
        → ((notify c json (persist c json s)).current ≡ s.current)
          × ((notify c json (persist c json s)).defaults ≡ s.defaults)
    unfolding notify persist
    told s = elim (Bool-cases s.storage.writable) [
      | inl p ↦ rw p (refl, refl)
      | inr p ↦ rw p (refl, refl)
    ]

    pub updated :
        (s : Store) (patch : Fields)
        → ((update c json s (obj patch)).current ≡ apply_patch c s.current patch)
          × ((update c json s (obj patch)).defaults ≡ s.defaults)
    unfolding update
    updated s patch = told (record s { current = apply_patch c s.current patch })

    pub reset :
        (s : Store)
        → ((reset_defaults c json s).current ≡ s.defaults)
          × ((reset_defaults c json s).defaults ≡ s.defaults)
    unfolding reset_defaults
    reset s = told (record s { current = s.defaults })
