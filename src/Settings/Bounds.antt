-- ===== src/Settings/Bounds.antt =====
-- frontend/js/settings.js: the ranges of trailSeconds and port.
use orbital_viewer.Base.{ℕ, ◌≤◌, Option, none, some, arith, codes}
use orbital_viewer.Settings.Patch.{Settings, built_in, Conversions, clamp_int, apply_patch}
use orbital_viewer.Settings.Store.{
  Json, Storage, Store, load_stored, normalize, merge_site_defaults, create_settings,
}
use orbital_viewer.Value.{Value, Fields, obj, get}

pub record IsValid (s : Settings) : Type 0 where
  pub trail_seconds-le : s.trail_seconds ≤ 60
  pub port_pos : 1 ≤ s.port
  pub port-le : s.port ≤ 65_535

-- Whatever value is given, the result is in range if the fallback is.
pub clamp_int_bounds :
    (c : Conversions) (v : Value) (lo hi fallback : ℕ)
    → lo ≤ hi
    → lo ≤ fallback
    → fallback ≤ hi
    → (lo ≤ clamp_int c v lo hi fallback) × (clamp_int c v lo hi fallback ≤ hi)
unfolding clamp_int
clamp_int_bounds c v lo hi fallback h k l = ground arith

pub apply_patch-IsValid :
    (c : Conversions) (base : Settings) (patch : Fields)
    → IsValid base
    → IsValid (apply_patch c base patch)
unfolding apply_patch
apply_patch-IsValid c base patch h = record {
  trail_seconds-le =
      ground (arith, clamp_int_bounds c (get (codes "trailSeconds") patch) 0 60 base.trail_seconds);
  port_pos = ground (arith, clamp_int_bounds c (get (codes "port") patch) 1 65_535 base.port);
  port-le = ground (arith, clamp_int_bounds c (get (codes "port") patch) 1 65_535 base.port);
}

built_in-IsValid : IsValid built_in
built_in-IsValid = omega arith

module _ (c : Conversions) (json : Json) where
  pub merge_site_defaults-IsValid : (site : Value) → IsValid (merge_site_defaults c json site)
  unfolding merge_site_defaults
  merge_site_defaults-IsValid (obj fs) = apply_patch-IsValid c built_in fs built_in-IsValid
  merge_site_defaults-IsValid _ = built_in-IsValid

  normalize-IsValid :
      (raw : Option Fields) (base : Settings) → IsValid base → IsValid (normalize c json raw base)
  unfolding normalize
  normalize-IsValid none base h = h
  normalize-IsValid (some fs) base h = apply_patch-IsValid c base fs h

  pub record IsValidStore (s : Store) : Type 0 where
    pub defaults : IsValid s.defaults
    pub current : IsValid s.current

  pub create_settings-IsValidStore :
      (storage : Storage) (site : Value) → IsValidStore (create_settings c json storage site)
  unfolding create_settings
  create_settings-IsValidStore storage site = record {
    defaults = merge_site_defaults-IsValid site;
    current = normalize-IsValid (load_stored c json storage) _ (merge_site_defaults-IsValid site);
  }
