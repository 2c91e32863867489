-- ===== src/Settings/Sessions.antt =====
-- frontend/js/settings.js: sequences of calls of the store's methods.
use orbital_viewer.Base.{ℕ, ◌≡◌, refl, sym, ◌∙◌, true, Option, none, List, [], ◌∷◌, arith}
use orbital_viewer.Settings.Bounds.{
  IsValid, IsValidStore, create_settings-IsValidStore, apply_patch-IsValid,
}
use orbital_viewer.Settings.Patch.{Conversions, apply_patch}
use orbital_viewer.Settings.Store.{
  Json, Storage, Store, merge_site_defaults, create_settings, update, reset_defaults, on_change,
  off_change,
}
use orbital_viewer.Value.{Value, obj}

pub data Action : Type 0 where
  do_update : Value → Action
  do_reset : Action
  do_subscribe : Option ℕ → Action
  do_unsubscribe : ℕ → Action

module _ (c : Conversions) (json : Json) where
  unfoldable pub act : Store → Action → Store
  act s (do_update patch) = update c json s patch
  act s do_reset = reset_defaults c json s
  act s (do_subscribe cb) = on_change s cb
  act s (do_unsubscribe cb) = off_change s cb

  unfoldable pub run : Store → List Action → Store
  unfolding act
  run s [] = s
  run s (a ∷ as_) = run (act s a) as_

  update-current :
      (s : Store) (fs : _) → (update c json s (obj fs)).current ≡ apply_patch c s.current fs
  unfolding update
  update-current s fs = ground arith

  act-defaults : (s : Store) (a : Action) → (act s a).defaults ≡ s.defaults
  unfolding act update reset_defaults on_change off_change
  act-defaults s (do_update patch) = ground arith
  act-defaults s do_reset = ground arith
  act-defaults s (do_subscribe cb) = ground arith
  act-defaults s (do_unsubscribe cb) = ground arith

  run-defaults : (s : Store) (as_ : List Action) → (run s as_).defaults ≡ s.defaults
  unfolding run
  run-defaults s [] = refl
  run-defaults s (a ∷ as_) = run-defaults (act s a) as_ ∙ act-defaults s a

  pub update-IsValid :
      (s : Store) (patch : Value) → IsValidStore c json s → IsValid (update c json s patch).current
  unfolding update
  update-IsValid s (obj fs) h = ground (arith, apply_patch-IsValid c s.current fs h.current)
  update-IsValid s _ h = h.current

  act-IsValid : (s : Store) (a : Action) → IsValidStore c json s → IsValid (act s a).current
  unfolding act reset_defaults on_change off_change
  act-IsValid s (do_update patch) h = update-IsValid s patch h
  act-IsValid s do_reset h = ground arith
  act-IsValid s (do_subscribe cb) h = ground arith
  act-IsValid s (do_unsubscribe cb) h = ground arith

  run-IsValidStore :
      (s : Store) (as_ : List Action) → IsValidStore c json s → IsValidStore c json (run s as_)
  unfolding run
  run-IsValidStore s [] h = h
  run-IsValidStore s (a ∷ as_) h =
      run-IsValidStore (act s a) as_
        (record { defaults = rw (act-defaults s a) h.defaults; current = act-IsValid s a h })

  -- Whatever the storage holds, the site configures and the calls pass in, the settings stay in
  -- range: trailSeconds is at most 60 and port lies between 1 and 65535, also in the defaults.
  pub run-create_settings-IsValidStore :
      (storage : Storage) (site : Value) (as_ : List Action)
      → IsValidStore c json (run (create_settings c json storage site) as_)
  run-create_settings-IsValidStore storage site as_ =
      run-IsValidStore _ as_ (create_settings-IsValidStore c json storage site)

  reset_defaults-current : (s : Store) → (reset_defaults c json s).current ≡ s.defaults
  unfolding reset_defaults
  reset_defaults-current s = ground arith

  create_settings-defaults :
      (storage : Storage) (site : Value)
      → (create_settings c json storage site).defaults ≡ merge_site_defaults c json site
  unfolding create_settings
  create_settings-defaults storage site = refl

  abbrev pub untouched : Storage
  untouched = record { readable = true; writable = true; item = none }

  create_settings-untouched :
      (site : Value)
      → (create_settings c json untouched site).current ≡ merge_site_defaults c json site
  unfolding create_settings
  create_settings-untouched site = refl

  -- Resetting after any calls gives the settings of a first visit: those of a store over an empty
  -- storage with the same site configuration, whatever the storage held.
  pub reset_defaults-run :
      (storage : Storage) (site : Value) (as_ : List Action)
      → (reset_defaults c json (run (create_settings c json storage site) as_)).current
        ≡ (create_settings c json untouched site).current
  reset_defaults-run storage site as_ =
      reset_defaults-current _
      ∙ run-defaults _ as_
      ∙ create_settings-defaults storage site
      ∙ sym (create_settings-untouched site)
