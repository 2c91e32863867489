-- ===== src/Settings/Patch.antt =====
-- frontend/js/settings.js: DEFAULTS, clampInt and applyPatch.
use orbital_viewer.Base.{
  ℕ, [], ◌/◌, ◌^◌, min, max, Bool, true, false, if◌then◌else◌, Text, codes, ◌===◌,
}
use orbital_viewer.Num.{Num, fin, nan, whole}
use orbital_viewer.Value.{
  Value, undefined, null, bool, num, str, arr, obj, Items, Fields, get, is_in, truthy,
}

pub data ViewMode : Type 0 where
  orbit sat : ViewMode

pub record Categories : Type 0 where
  pub debris : Bool
  pub star : Bool
  pub comet : Bool
  pub satellite : Bool
  pub ground_hot : Bool
  pub unknown : Bool

pub record Settings : Type 0 where
  pub show_trails : Bool
  pub trail_seconds : ℕ
  pub show_labels : Bool
  pub show_sky : Bool
  pub view_mode : ViewMode
  pub categories : Categories
  pub host : Text
  pub port : ℕ

abbrev pub built_in : Settings
built_in = record {
  show_trails = false;
  trail_seconds = 30;
  show_labels = false;
  show_sky = true;
  view_mode = orbit;
  categories = record {
    debris = true;
    star = true;
    comet = true;
    satellite = true;
    ground_hot = true;
    unknown = true;
  };
  host = [];
  port = 8765;
}

-- The conversions of `Number(v)` that the language defines by ToPrimitive and its numeral grammar.
pub record Conversions : Type 0 where
  pub of_text : Text → Num
  pub of_items : Items → Num
  pub of_fields : Fields → Num

module _ (c : Conversions) where
  -- `Number(v)`
  unfoldable pub to_number : Value → Num
  to_number undefined = nan
  to_number null = whole 0
  to_number (bool true) = whole 1
  to_number (bool false) = whole 0
  to_number (num x) = x
  to_number (str s) = c.of_text s
  to_number (arr vs) = c.of_items vs
  to_number (obj fs) = c.of_fields fs

  -- `Math.min(max, Math.max(min, Math.trunc(n)))`, where no bound is negative.
  clamp_num : Num → (lo hi fallback : ℕ) → ℕ
  clamp_num (fin false n k) lo hi fallback = min hi (max lo (n / 2 ^ k))
  clamp_num (fin true n k) lo hi fallback = min hi lo
  clamp_num _ lo hi fallback = fallback

  unfoldable pub clamp_int : Value → (lo hi fallback : ℕ) → ℕ
  unfolding clamp_num to_number
  clamp_int v = clamp_num (to_number v)

abbrev flag : Text → Fields → Bool → Bool
flag key patch old = if is_in key patch then truthy (get key patch) else old

abbrev is_str : Value → Text → Bool
is_str (str s) t = s === t
is_str _ t = false

patch_view_mode : Value → ViewMode → ViewMode
patch_view_mode v old =
    if is_str v (codes "orbit") then orbit else if is_str v (codes "sat") then sat else old

patch_host : Value → Text → Text
patch_host (str s) old = s
patch_host _ old = old

patch_categories : Value → Categories → Categories
patch_categories (obj p) old = record {
  debris = flag (codes "debris") p old.debris;
  star = flag (codes "star") p old.star;
  comet = flag (codes "comet") p old.comet;
  satellite = flag (codes "satellite") p old.satellite;
  ground_hot = flag (codes "groundHot") p old.ground_hot;
  unknown = flag (codes "unknown") p old.unknown;
}
patch_categories _ old = old

module _ (c : Conversions) where
  -- A missing key reads as `undefined`, which the host, viewMode and categories tests refuse too.
  unfoldable pub apply_patch : Settings → Fields → Settings
  unfolding patch_view_mode patch_host patch_categories
  apply_patch base patch = record {
    show_trails = flag (codes "showTrails") patch base.show_trails;
    show_labels = flag (codes "showLabels") patch base.show_labels;
    show_sky = flag (codes "showSky") patch base.show_sky;
    view_mode = patch_view_mode (get (codes "viewMode") patch) base.view_mode;
    trail_seconds =
        if is_in (codes "trailSeconds") patch
        then clamp_int c (get (codes "trailSeconds") patch) 0 60 base.trail_seconds
        else base.trail_seconds;
    port =
        if is_in (codes "port") patch
        then clamp_int c (get (codes "port") patch) 1 65_535 base.port
        else base.port;
    host = patch_host (get (codes "host") patch) base.host;
    categories = patch_categories (get (codes "categories") patch) base.categories;
  }
