-- ===== src/Renderer/TrailBuffer.antt =====
-- frontend/js/renderer.js: rebuildTrailBuffer. Lengths are those of the typed arrays; what the first
-- pass counts and the second pass writes stands in the result.
pub mod Passes
use orbital_viewer.Net.Message.{Category, Vec3}
use orbital_viewer.Renderer.Trails.{object, sat, Trail, Key, Trails, Sample}
use orbital_viewer.Renderer.Scene.{cat_color, View, Floats}
use orbital_viewer.Num.{lt, to_double, whole, Num}
use orbital_viewer.Base.{
  ℕ, zero, suc, ◌+◌, ◌-◌, ◌*◌, ◌/◌, ◌%◌, ◌^◌, ◌≤◌, ◌<◌, min, max, ◌≡◌, refl, sym, ap, ◌∙◌, subst,
  fun_ext, ◌≡⟨◌⟩◌, ◌∎, ◌≢◌, ◌↔◌, ◌⊎◌, inl, inr, Bool, true, false, not, ◌&&◌, ◌||◌, Option, none,
  some, List, [], ◌∷◌, ◌++◌, map, append_assoc, append-nil, arith, ltb, leb, ◌==◌, if◌then◌else◌,
  ltb→lt, lt→ltb, leb→le, ==_iff, tests, Bool-cases, Option-cases, and-true, length, take,
  get_elem?, every, keep, length-append, length-take, length-map, All, All-append, Text, codes,
  ◌===◌, ===_iff, ===_self, lookup, has,
}

-- The colour of the satellite's trail, `SAT_COLOR`.
abbrev trail_color_for : Floats → Option Category → Vec3
trail_color_for fl none = record {
  x = whole 1;
  y = to_double false 8353 4;
  z = to_double false 2902 4;
}
trail_color_for fl (some c) = cat_color fl c

-- The test that passes over a trail.
unfoldable pub is_hidden : View → Key → Trail → Bool
is_hidden view k t = view.is_sat && is_sat_key k || not (cat_visible t.cat)
  where
    is_sat_key : Key → Bool
    is_sat_key (sat _) = true
    is_sat_key (object _) = false

    cat_visible : Option Category → Bool
    cat_visible none = true
    cat_visible (some c) = view.shown c

abbrev limit_alpha : Num → Num
limit_alpha a = if lt a (whole 0) then whole 0 else if lt (whole 1) a then whole 1 else a

module _ (fl : Floats) (view : View) (ref : Num) where
  abbrev age : Sample → Num
  age s = fl.div (fl.sub ref s.t) (whole 1000)

  -- The segment from `a` to `b` is young enough and has a length.
  unfoldable pub qualifies : (a b : Sample) → Bool
  qualifies a b =
      let dx = fl.sub b.at.x a.at.x in
      let dy = fl.sub b.at.y a.at.y in
      let dz = fl.sub b.at.z a.at.z in
      let square = fl.add (fl.add (fl.mul dx dx) (fl.mul dy dy)) (fl.mul dz dz) in
      not (lt view.trail_seconds (age b)) && not (lt square (to_double false 1 8))

  -- The first pass over the samples of a trail, and over the trails.
  unfoldable pub count_samples : List Sample → ℕ
  unfolding qualifies
  count_samples [] = 0
  count_samples (a ∷ []) = 0
  count_samples (a ∷ b ∷ ss) = (if qualifies a b then 1 else 0) + count_samples (b ∷ ss)

  unfoldable pub count_trails : Trails → ℕ
  unfolding count_samples is_hidden
  count_trails [] = 0
  count_trails ((k, t) ∷ ts) =
      (if is_hidden view k t then 0 else count_samples t.samples) + count_trails ts

  abbrev vertex : Vec3 → Sample → List Num
  vertex col s =
      s.at.x
      ∷ s.at.y
      ∷ s.at.z
      ∷ col.x
      ∷ col.y
      ∷ col.z
      ∷ limit_alpha (fl.sub (whole 1) (fl.div (age s) view.trail_seconds))
      ∷ []

  -- The second pass: the numbers that it writes, in order, from index 0.
  unfoldable pub write_samples : Vec3 → List Sample → List Num
  unfolding qualifies
  write_samples col [] = []
  write_samples col (a ∷ []) = []
  write_samples col (a ∷ b ∷ ss) =
      (if qualifies a b then vertex col a ++ vertex col b else []) ++ write_samples col (b ∷ ss)

  unfoldable pub write_trails : Trails → List Num
  unfolding write_samples is_hidden
  write_trails [] = []
  write_trails ((k, t) ∷ ts) =
      (if is_hidden view k t then [] else write_samples (trail_color_for fl t.cat) t.samples)
      ++ write_trails ts

-- `while (cap < floatsNeeded) cap *= 2`, with fuel.
unfoldable pub grow : (fuel cap needed : ℕ) → Option ℕ
grow zero cap needed = if ltb cap needed then none else some cap
grow (suc fuel) cap needed =
    let rest = grow fuel (cap * 2) needed in if ltb cap needed then rest else some cap

-- The trail array's length, what was written, and the number of vertices to draw.
pub record Buffer : Type 0 where
  pub capacity : ℕ
  pub written : List Num
  pub vertices : ℕ

-- `none` if the doubling runs out of fuel.
unfoldable pub rebuild_trail_buffer : Floats → View → Num → Trails → Buffer → Option Buffer
unfolding count_trails write_trails grow
rebuild_trail_buffer fl view ref ts buffer =
    let idle = record buffer { vertices = 0 } in
    let segments = count_trails fl view ref ts in
    let needed = segments * 2 * 7 in
    if not view.show_trails || not (lt (whole 0) view.trail_seconds)
    then some idle
    else if segments == 0
    then some idle
    else elim (grow needed buffer.capacity needed) [
      | none ↦ none
      | some cap ↦ some (record {
        capacity = cap;
        written = write_trails fl view ref ts;
        vertices = segments * 2;
      })
    ]
