-- ===== src/Settings/Store.antt =====
-- frontend/js/settings.js: createSettings and its methods.
use orbital_viewer.Base.{
  ℕ, Bool, Option, none, some, List, [], ◌∷◌, ◌++◌, map, ◌==◌, if◌then◌else◌, keep, not, Text,
}
use orbital_viewer.Settings.Patch.{Settings, built_in, Conversions, apply_patch}
use orbital_viewer.Value.{Value, obj, Fields}

-- localStorage at the store's key. A storage without the methods behaves as one that throws.
pub record Storage : Type 0 where
  pub readable : Bool
  pub writable : Bool
  pub item : Option Text

-- JSON.parse (`none` when it throws) and JSON.stringify on settings.
pub record Json : Type 0 where
  pub parse : Text → Option Value
  pub stringify : Settings → Text

-- The closure's variables, the storage, and the calls that listeners have received.
pub record Store : Type 0 where
  pub defaults : Settings
  pub current : Settings
  pub listeners : List ℕ
  pub storage : Storage
  pub calls : List (ℕ × Settings)

abbrev pub as_object : Option Value → Option Fields
as_object (some (obj fs)) = some fs
as_object _ = none

module _ (c : Conversions) (json : Json) where
  unfoldable pub stored_text : Option Text → Option Fields
  stored_text none = none
  stored_text (some []) = none
  stored_text (some (u ∷ raw)) = as_object (json.parse (u ∷ raw))

  unfoldable pub load_stored : Storage → Option Fields
  unfolding stored_text
  load_stored storage = if storage.readable then stored_text storage.item else none

  abbrev patched : Settings → Option Fields → Settings
  patched base none = base
  patched base (some patch) = apply_patch c base patch

  unfoldable pub normalize : Option Fields → Settings → Settings
  normalize raw base = patched base raw

  unfoldable pub merge_site_defaults : Value → Settings
  merge_site_defaults site = patched built_in (as_object (some site))

  unfoldable pub create_settings : Storage → Value → Store
  unfolding load_stored normalize merge_site_defaults
  create_settings storage site =
      let effective = merge_site_defaults site in
      record {
        defaults = effective;
        current = normalize (load_stored storage) effective;
        listeners = [];
        storage = storage;
        calls = [];
      }

  unfoldable pub persist : Store → Store
  persist s =
      if s.storage.writable
      then record s { storage = record (s.storage) { item = some (json.stringify s.current) } }
      else s

  unfoldable pub notify : Store → Store
  notify s = record s { calls = s.calls ++ map (λ cb. (cb, s.current)) s.listeners }

  unfoldable pub update : Store → Value → Store
  unfolding persist notify
  update s (obj patch) = notify (persist (record s { current = apply_patch c s.current patch }))
  update s _ = s

  unfoldable pub reset_defaults : Store → Store
  unfolding persist notify
  reset_defaults s = notify (persist (record s { current = s.defaults }))

-- `listeners.add(cb)`; `none` is a callback that is no function.
abbrev pub add : ℕ → List ℕ → List ℕ
add cb [] = cb ∷ []
add cb (x ∷ xs) = if x == cb then x ∷ xs else x ∷ add cb xs

unfoldable pub on_change : Store → Option ℕ → Store
on_change s none = s
on_change s (some cb) = record s { listeners = add cb s.listeners }

-- The function that onChange returns.
unfoldable pub off_change : Store → ℕ → Store
off_change s cb = record s { listeners = keep (λ x. not (x == cb)) s.listeners }
