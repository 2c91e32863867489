-- ===== src/Renderer/State.antt =====
-- The renderer's state between the calls of its methods (setSnapshot, setSettings, setSelected and
-- the clock of frame in frontend/js/renderer.js). What rebuildSky makes of the epoch is a parameter.
pub mod Current
pub mod Kept
use orbital_viewer.Base.{
  ℕ, zero, suc, ◌+◌, ◌-◌, ◌*◌, ◌/◌, ◌%◌, ◌^◌, ◌≤◌, ◌<◌, min, max, ◌≡◌, refl, sym, ap, ◌∙◌, subst,
  fun_ext, ◌≡⟨◌⟩◌, ◌∎, ◌≢◌, ◌↔◌, ◌⊎◌, inl, inr, Bool, true, false, not, ◌&&◌, ◌||◌, Option, none,
  some, List, [], ◌∷◌, ◌++◌, map, append_assoc, append-nil, arith, ltb, leb, ◌==◌, if◌then◌else◌,
  ltb→lt, lt→ltb, leb→le, ==_iff, tests, Bool-cases, Option-cases, and-true, length, take,
  get_elem?, every, keep, length-append, length-take, length-map, All, All-append, Text, codes,
  ◌===◌, ===_iff, ===_self, lookup, has,
}
use orbital_viewer.Renderer.Scene.{
  Floats, View, Sprite, normalize_settings, rebuild_object_buffer, world_from_meters,
}
use orbital_viewer.Renderer.Trails.{Trails, append_trails, prune, server_time_ms}
use orbital_viewer.Renderer.TrailBuffer.{Buffer, rebuild_trail_buffer}
use orbital_viewer.Num.{Num, nan, is_nan, is_finite, whole, to_double, eq}
use orbital_viewer.Net.Message.{Satellite, Vec3}
use orbital_viewer.Model.{Snapshot}
use orbital_viewer.Value.{Value, null}

-- satRender
pub record SatSprite : Type 0 where
  pub id : Num
  pub at : Vec3

-- The closure's variables; the velocity line is there while velActive.
pub record Scene (S : Type 0) : Type 0 where
  pub view : View
  pub snapshot : Option Snapshot
  pub last_now : Num
  pub epoch : Num
  pub base_now : Num
  pub sprites : List Sprite
  pub sat : Option SatSprite
  pub velocity : Option (Vec3 × Vec3)
  pub trails : Trails
  pub buffer : Buffer
  pub selected : Option Num
  pub sky : S

-- A call of a method; of `frame`, what it does to the clock.
pub data Event : Type 0 where
  set_snapshot : (snap : Option Snapshot) (now : Num) → Event
  set_settings : (settings : Value) → Event
  set_selected : (id : Option Num) → Event
  frame : (now : Num) → Event

abbrev pub satellite_of : Option Snapshot → Option Satellite
satellite_of none = none
satellite_of (some snap) = snap.satellite

unfoldable pub sat_sprite : Floats → Option Satellite → Option SatSprite
unfolding world_from_meters
sat_sprite fl none = none
sat_sprite fl (some s) = some (record { id = s.id; at = world_from_meters fl s.pos })

-- From the satellite to where its velocity takes it in 60 s.
unfoldable pub velocity_line : Floats → Option Satellite → Option (Vec3 × Vec3)
unfolding world_from_meters
velocity_line fl none = none
velocity_line fl (some s) =
    let ahead : Num → Num → Num =
      λ p v. fl.mul (fl.add p (fl.mul v (whole 60))) (to_double false 1 6) in
    some (
      world_from_meters fl s.pos,
      record { x = ahead s.pos.x s.vel.x; y = ahead s.pos.y s.vel.y; z = ahead s.pos.z s.vel.z },
    )

-- The result of a rebuilt trail buffer in the state.
abbrev kept_buffer : {S : Type 0} → Scene S → Option Buffer → Option (Scene S)
kept_buffer st none = none
kept_buffer st (some b) = some (record st { buffer = b })

-- What `sceneNowMs(now)` does to the clock: the first frame before any time anchors it.
unfoldable pub on_frame : {S : Type 0} → (now : Num) → Scene S → Scene S
on_frame now st = record st { base_now = if is_nan st.base_now then now else st.base_now }

-- What `sceneNowMs(now)` returns.
unfoldable pub scene_now_ms : {S : Type 0} → Floats → (now : Num) → Scene S → Num
scene_now_ms fl now st =
    if is_nan st.base_now then st.epoch else fl.add st.epoch (fl.sub now st.base_now)

module _ {S : Type 0} (fl : Floats) (rebuild_sky : (epoch : Num) → S) where
  -- `rebuildTrailBuffer()`; `none` only where its loop does not end.
  unfoldable pub with_buffer : Scene S → Option (Scene S)
  unfolding rebuild_trail_buffer
  with_buffer st = kept_buffer st (rebuild_trail_buffer fl st.view st.last_now st.trails st.buffer)

  -- The time of the snapshot, where it has one that parses.
  unfoldable pub snapshot_ms : Option Snapshot → (now : Num) → Num
  snapshot_ms none now = nan
  snapshot_ms (some snap) now = server_time_ms fl now snap.server_time

  -- `appendTrails(nowMs)`; without a snapshot it only drops what is stale.
  unfoldable pub grown_trails : Option Snapshot → (now : Num) → Trails → Trails
  unfolding append_trails prune
  grown_trails none now ts = prune fl now ts
  grown_trails (some snap) now ts = append_trails fl now snap ts

  -- setSnapshot but for the trail buffer, which no other part of the state depends on.
  unfoldable pub take_snapshot : Option Snapshot → (now : Num) → Scene S → Scene S
  unfolding snapshot_ms grown_trails rebuild_object_buffer sat_sprite velocity_line
  take_snapshot snap now st =
      let ms = snapshot_ms snap now in
      let epoch = if is_finite ms then ms else st.epoch in
      record st {
        snapshot = snap;
        last_now = now;
        epoch = epoch;
        base_now = if is_finite ms then now else st.base_now;
        trails = grown_trails snap now st.trails;
        sprites = rebuild_object_buffer fl st.view snap;
        sat = sat_sprite fl (satellite_of snap);
        velocity = velocity_line fl (satellite_of snap);
        sky = rebuild_sky epoch;
      }

  unfoldable pub on_snapshot : Option Snapshot → (now : Num) → Scene S → Option (Scene S)
  unfolding take_snapshot with_buffer
  on_snapshot snap now st = with_buffer (take_snapshot snap now st)

  -- setSettings but for the trail buffer.
  unfoldable pub take_settings : Value → Scene S → Scene S
  unfolding normalize_settings rebuild_object_buffer
  take_settings settings st =
      let view = normalize_settings settings in
      record st { view = view; sprites = rebuild_object_buffer fl view st.snapshot }

  unfoldable pub on_settings : Value → Scene S → Option (Scene S)
  unfolding take_settings with_buffer
  on_settings settings st = with_buffer (take_settings settings st)

  unfoldable pub step : Event → Scene S → Option (Scene S)
  unfolding on_snapshot on_settings on_frame
  step (set_snapshot snap now) st = on_snapshot snap now st
  step (set_settings settings) st = on_settings settings st
  step (set_selected id) st = some (record st { selected = id })
  step (frame now) st = some (on_frame now st)

  unfoldable pub run_scene : Option (Scene S) → List Event → Option (Scene S)
  unfolding step
  run_scene none events = none
  run_scene (some st) [] = some st
  run_scene (some st) (e ∷ events) = run_scene (step e st) events

  -- The state that createRenderer returns with, at the clock's time.
  unfoldable pub create_scene : (date_now : Num) → Scene S
  unfolding normalize_settings
  create_scene date_now = record {
    view = normalize_settings null;
    snapshot = none;
    last_now = whole 0;
    epoch = date_now;
    base_now = nan;
    sprites = [];
    sat = none;
    velocity = none;
    trails = [];
    buffer = record { capacity = 4096; written = []; vertices = 0 };
    selected = none;
    sky = rebuild_sky date_now;
  }

-- `findRenderById(id)`: the satellite first, then the objects in their order; the position found.
unfoldable find_sprite : (id : Num) → List Sprite → Option Vec3
unfolding eq
find_sprite id [] = none
find_sprite id (s ∷ ss) = let rest = find_sprite id ss in if eq s.id id then some s.at else rest

unfoldable pub find_render_by_id : {S : Type 0} → (id : Num) → Scene S → Option Vec3
unfolding find_sprite eq
find_render_by_id id st = elim st.sat [
  | none ↦ find_sprite id st.sprites
  | some s ↦ if eq s.id id then some s.at else find_sprite id st.sprites
]
