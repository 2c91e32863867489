-- ===== src/Renderer/TrailBuffer/Passes.antt =====
-- frontend/js/renderer.js: the two passes of rebuildTrailBuffer agree, and its array is long enough.
use orbital_viewer.Renderer.Trails.{Sample, Trails}
use orbital_viewer.Net.Message.{Vec3}
use orbital_viewer.Num.{whole, lt, Num}
use orbital_viewer.Renderer.TrailBuffer.{
  Buffer, rebuild_trail_buffer, trail_color_for, count_samples, count_trails, write_trails,
  write_samples, grow,
}
use orbital_viewer.Renderer.Scene.{View, Floats}
use orbital_viewer.Base.{
  ℕ, zero, suc, ◌+◌, ◌*◌, ◌≤◌, ◌≡◌, refl, ◌⊎◌, inl, inr, not, ◌||◌, some, List, [], ◌∷◌, arith, ltb,
  ◌==◌, Bool-cases, length, length-append,
}

module _ (fl : Floats) (view : View) (ref : Num) where
  write_samples-length :
      (col : Vec3) (ss : List Sample)
      → length (write_samples fl view ref col ss) ≡ 14 * count_samples fl view ref ss
  unfolding write_samples count_samples
  write_samples-length col [] = refl
  write_samples-length col (a ∷ []) = refl
  write_samples-length col (a ∷ b ∷ ss) = ground (arith, write_samples-length col (b ∷ ss))

  write_trails-length :
      (ts : Trails) → length (write_trails fl view ref ts) ≡ 14 * count_trails fl view ref ts
  unfolding write_trails count_trails
  write_trails-length [] = refl
  write_trails-length ((k, t) ∷ ts) = ground (
    arith,
    write_trails-length ts,
    write_samples-length (trail_color_for fl t.cat) t.samples,
    length-append (write_samples fl view ref (trail_color_for fl t.cat) t.samples)
        (write_trails fl view ref ts),
  )

-- Doubling from a positive length reaches any length.
grow_lem :
    (fuel cap needed : ℕ)
    → 1 ≤ cap
    → needed ≤ cap + fuel
    → (c : ℕ) × (grow fuel cap needed ≡ some c) × (needed ≤ c) × (cap ≤ c)
unfolding grow
grow_lem zero cap needed one enough =
    (cap, ground (arith, enough), omega (arith, enough), omega arith)
grow_lem (suc fuel) cap needed one enough =
    let (c, eq, fits, wider) =
      grow_lem fuel (cap * 2) needed (omega (arith, one)) (omega (arith, one, enough)) in
    elim (Bool-cases (ltb cap needed)) [
      | inl p ↦ (c, rw p eq, fits, omega (arith, wider))
      | inr p ↦ (cap, rw p refl, ground (arith, p), omega arith)
    ]

-- On an array that is not empty, rebuilding ends within as many doublings as there are numbers to
-- write, for the array never shrinks; and what it draws, it has written: seven numbers for each
-- vertex, none of them beyond the array's end, where the array was long enough before or has grown.
pub rebuild_trail_buffer_lem :
    (fl : Floats) (view : View) (ref : Num) (ts : Trails) (buffer : Buffer)
    → 1 ≤ buffer.capacity
    → (b : Buffer) × (rebuild_trail_buffer fl view ref ts buffer ≡ some b)
      × (buffer.capacity ≤ b.capacity)
      × (b.vertices ≡ 0 ⊎ ((length b.written ≡ b.vertices * 7) × (length b.written ≤ b.capacity)))
unfolding rebuild_trail_buffer
rebuild_trail_buffer_lem fl view ref ts buffer one =
    let segments = count_trails fl view ref ts in
    let idle : Buffer = record buffer { vertices = 0 } in
    let (cap, grown, fits, wider) =
      grow_lem (segments * 2 * 7) buffer.capacity (segments * 2 * 7) one (omega arith) in
    let fresh : Buffer = record {
      capacity = cap;
      written = write_trails fl view ref ts;
      vertices = segments * 2;
    } in
    elim (Bool-cases (not view.show_trails || not (lt (whole 0) view.trail_seconds))) [
      | inl p ↦ (idle, rw p refl, omega arith, inl refl)
      | inr p ↦ elim (Bool-cases (segments == 0)) [
        | inl q ↦ (idle, rw (p, q) refl, omega arith, inl refl)
        | inr q ↦ (
          fresh,
          rw (p, q, grown) refl,
          wider,
          inr (
            omega (arith, write_trails-length fl view ref ts),
            omega (arith, fits, write_trails-length fl view ref ts),
          ),
        )
      ]
    ]
