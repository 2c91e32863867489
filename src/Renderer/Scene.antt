-- ===== src/Renderer/Scene.antt =====
-- frontend/js/renderer.js: normalizeSettings, worldFromMeters, and the list of objects to draw.
use orbital_viewer.Value.{truthy, end, get, bool, str, num, obj, Fields, Value}
use orbital_viewer.Num.{nan, lt, whole, to_double, Num}
use orbital_viewer.Model.{Snapshot}
use orbital_viewer.Net.Message.{
  unknown, satellite, comet, star, debris, ground_hot, ObjectRow, Vec3, Category,
}
use orbital_viewer.Base.{
  ℕ, zero, suc, ◌≤◌, ◌≡◌, refl, ap, inl, inr, Bool, true, false, Option, none, some, List, [], ◌∷◌,
  map, arith, if◌then◌else◌, Bool-cases, length, take, keep, length-take, length-map, Text, codes,
  ◌===◌,
}

-- `+`, `-`, `*`, `/`, Math.hypot, and Date.parse.
pub record Floats : Type 0 where
  pub add : Num → Num → Num
  pub sub : Num → Num → Num
  pub mul : Num → Num → Num
  pub div : Num → Num → Num
  pub hypot : Vec3 → Num
  pub parse_date : Text → Num

pub record View : Type 0 where
  pub show_trails : Bool
  pub trail_seconds : Num
  pub show_labels : Bool
  pub show_sky : Bool
  pub is_sat : Bool
  pub shown : Category → Bool

-- `Math.max(lo, Math.min(hi, x))`
unfoldable pub clamp : (lo hi : ℕ) → Num → Num
clamp lo hi nan = nan
clamp lo hi x = if lt (whole hi) x then whole hi else if lt x (whole lo) then whole lo else x

abbrev or_empty : Value → Fields
or_empty (obj fs) = fs
or_empty _ = end

-- `v !== false`
abbrev pub not_false : Value → Bool
not_false (bool false) = false
not_false _ = true

abbrev pub category_key : Category → Text
category_key debris = codes "debris"
category_key star = codes "star"
category_key comet = codes "comet"
category_key satellite = codes "satellite"
category_key ground_hot = codes "groundHot"
category_key unknown = codes "unknown"

unfoldable pub trail_seconds_of : Value → Num
unfolding clamp
trail_seconds_of (num x) = clamp 0 60 x
trail_seconds_of _ = whole 20

unfoldable pub normalize_settings : Value → View
unfolding trail_seconds_of
normalize_settings settings =
    let s = or_empty settings in
    let c = or_empty (get (codes "categories") s) in
    record {
      show_trails = truthy (get (codes "showTrails") s);
      trail_seconds = trail_seconds_of (get (codes "trailSeconds") s);
      show_labels = truthy (get (codes "showLabels") s);
      show_sky = not_false (get (codes "showSky") s);
      is_sat = is_sat_mode (get (codes "viewMode") s);
      shown = λ cat. not_false (get (category_key cat) c);
    }
  where
    is_sat_mode : Value → Bool
    is_sat_mode (str t) = t === codes "sat"
    is_sat_mode _ = false

unfoldable pub world_from_meters : Floats → Vec3 → Vec3
world_from_meters fl pos =
    let scale = to_double false 1 6 in
    let v : Vec3 = record {
      x = fl.mul pos.x scale;
      y = fl.mul pos.y scale;
      z = fl.mul pos.z scale;
    } in
    let len = fl.hypot v in
    let s = fl.div (whole 120) len in
    if lt (whole 120) len
    then record { x = fl.mul v.x s; y = fl.mul v.y s; z = fl.mul v.z s }
    else v

-- An element of renderObjects, and of the buffers of positions, colours, sizes and icons.
pub record Sprite : Type 0 where
  pub id : Num
  pub cat : Category
  pub at : Vec3
  pub color : Vec3
  pub size : ℕ

abbrev over_255 : Floats → ℕ → ℕ → ℕ → Vec3
over_255 fl r g b = record {
  x = fl.div (whole r) (whole 255);
  y = fl.div (whole g) (whole 255);
  z = fl.div (whole b) (whole 255);
}

abbrev ground_hot_color : Floats → Num → Vec3
ground_hot_color fl k =
    let t = fl.div (fl.sub k (whole 300)) (whole 1700) in
    let u = if lt t (whole 0) then whole 0 else if lt (whole 1) t then whole 1 else t in
    let mix : Num → Num → Num = λ lo hi. fl.add lo (fl.mul (fl.sub hi lo) u) in
    record {
      x = mix (whole 1) (whole 1);
      y = mix (to_double false 5647 4) (to_double false 1882 4);
      z = mix (to_double false 251 3) (to_double false 1255 4);
    }

-- `CAT[cat].color` and `CAT[cat].size`; every category has an entry.
abbrev pub cat_color : Floats → Category → Vec3
cat_color fl debris = over_255 fl 170 178 189
cat_color fl star = record { x = whole 1; y = whole 1; z = whole 1 }
cat_color fl comet = over_255 fl 111 211 255
cat_color fl satellite = over_255 fl 88 214 141
cat_color fl ground_hot = record {
  x = whole 1;
  y = to_double false 5647 4;
  z = to_double false 251 3;
}
cat_color fl unknown = over_255 fl 199 146 234

abbrev cat_size : Category → ℕ
cat_size debris = 10
cat_size star = 9
cat_size comet = 14
cat_size satellite = 14
cat_size ground_hot = 13
cat_size unknown = 12

abbrev is_ground_hot : Category → Bool
is_ground_hot ground_hot = true
is_ground_hot _ = false

-- `o.intensity || 0`
abbrev or_zero : Num → Num
or_zero nan = whole 0
or_zero x = x

unfoldable pub sprite : Floats → ObjectRow → Sprite
unfolding world_from_meters
sprite fl o = record {
  id = o.id;
  cat = o.cat;
  at = world_from_meters fl o.pos;
  color =
      if is_ground_hot o.cat then ground_hot_color fl (or_zero o.intensity) else cat_color fl o.cat;
  size = cat_size o.cat;
}

-- The loop of rebuildObjectBuffer, with `room` places left in the buffers.
unfoldable pub fill_objects : Floats → View → (room : ℕ) → List ObjectRow → List Sprite
fill_objects fl view zero os = []
fill_objects fl view room [] = []
fill_objects fl view (suc room) (o ∷ os) =
    let skipped = fill_objects fl view (suc room) os in
    let drawn = sprite fl o ∷ fill_objects fl view room os in
    if view.shown o.cat then drawn else skipped

abbrev pub max_objects : ℕ
max_objects = 5000

unfoldable pub rebuild_object_buffer : Floats → View → Option Snapshot → List Sprite
unfolding fill_objects
rebuild_object_buffer fl view none = []
rebuild_object_buffer fl view (some snap) = fill_objects fl view max_objects snap.objects

fill_objects-take :
    (fl : Floats) (view : View) (room : ℕ) (os : List ObjectRow)
    → fill_objects fl view room os ≡ map (sprite fl) (take room (keep (λ o. view.shown o.cat) os))
unfolding fill_objects
fill_objects-take fl view zero os = refl
fill_objects-take fl view (suc room) [] = refl
fill_objects-take fl view (suc room) (o ∷ os) = elim (Bool-cases (view.shown o.cat)) [
  | inl h ↦ rw h (ap (◌∷◌ (sprite fl o)) (fill_objects-take fl view room os))
  | inr h ↦ rw h (fill_objects-take fl view (suc room) os)
]

-- What is drawn of a snapshot is its first 5000 objects of the visible categories, in its order; so
-- the preallocated buffers are never overrun, whatever the number of objects.
pub rebuild_object_buffer_lem :
    (fl : Floats) (view : View) (snap : Snapshot)
    → (rebuild_object_buffer fl view (some snap)
        ≡ map (sprite fl) (take max_objects (keep (λ o. view.shown o.cat) snap.objects)))
      × (length (rebuild_object_buffer fl view (some snap)) ≤ max_objects)
unfolding rebuild_object_buffer
rebuild_object_buffer_lem fl view snap =
    let shown = keep (λ o. view.shown o.cat) snap.objects in
    let same = fill_objects-take fl view max_objects snap.objects in
    (
      same,
      omega (
        arith,
        ap length same,
        length-map (take max_objects shown) (sprite fl),
        length-take max_objects shown,
      ),
    )
