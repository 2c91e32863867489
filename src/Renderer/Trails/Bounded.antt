-- ===== src/Renderer/Trails/Bounded.antt =====
-- frontend/js/renderer.js: the size and the age of trails.
use orbital_viewer.Model.{Snapshot}
use orbital_viewer.Num.{is_finite, Num}
use orbital_viewer.Renderer.Scene.{world_from_meters, Floats}
use orbital_viewer.Net.Message.{Satellite, TrailPoint, ObjectRow, Category}
use orbital_viewer.Renderer.Trails.{
  last_sample, is_late, place_point, server_time_ms, sat, is_fresh, object, append_object,
  append_satellite, prune, append_objects, append_trails, append_points, shift, append_point,
  is_server, samples_of, same_key, Sample, Key, Trails, find, push, set, Trail,
}
use orbital_viewer.Base.{
  ℕ, ◌-◌, ◌≤◌, max, ◌≡◌, refl, inl, inr, Bool, true, false, Option, none, some, List, [], ◌∷◌, ◌++◌,
  arith, if◌then◌else◌, Bool-cases, length, length-append, All,
}

pub record IsBounded (t : Trail) : Type 0 where
  pub at_most : length t.samples ≤ (if t.server then 512 else 64)
  pub present : 1 ≤ length t.samples

abbrev pub AllBounded : Trails → Type 0
AllBounded ts = All (λ kt. IsBounded kt.1) ts

abbrev pub Found : Option Trail → Type 0
Found none = Unit
Found (some t) = IsBounded t

find-IsBounded : (k : Key) (ts : Trails) → AllBounded ts → Found (find k ts)
unfolding find
find-IsBounded k [] h = tt
find-IsBounded k ((j, t) ∷ ts) h = ground (arith, find-IsBounded k ts h.1)

set-AllBounded :
    (k : Key) (t : Trail) (ts : Trails) → IsBounded t → AllBounded ts → AllBounded (set k t ts)
unfolding set
set-AllBounded k t [] b h = (b, tt)
set-AllBounded k t ((j, u) ∷ ts) b h = elim (Bool-cases (same_key j k)) [
  | inl p ↦ rw p (b, h.1)
  | inr p ↦ rw p (h.0, set-AllBounded k t ts b h.1)
]

length-shift : (ss : List Sample) → length (shift ss) ≡ length ss - 1
length-shift [] = omega arith
length-shift (s ∷ ss) = omega arith

length-push :
    (n : ℕ) (x : Sample) (ss : List Sample)
    → (length (push n x ss) ≤ max n (length ss)) × (1 ≤ n → 1 ≤ length (push n x ss))
unfolding push
length-push n x ss = (
  ground (arith, length-shift (ss ++ x ∷ []), length-append ss (x ∷ [])),
  λ one. ground (arith, length-shift (ss ++ x ∷ []), length-append ss (x ∷ [])),
)

abbrev pub cap_of : Bool → ℕ
cap_of server = if server then 512 else 64

length-samples_of : (o : Option Trail) → Found o → length (samples_of o) ≤ cap_of (is_server o)
length-samples_of none f = omega arith
length-samples_of (some t) f = f.at_most

-- A push under a cap that suits the trail.
pushed :
    (c : Option Category) (server : Bool) (n : ℕ) (x : Sample) (o : Option Trail)
    → Found o
    → 1 ≤ n
    → n ≤ cap_of server
    → cap_of (is_server o) ≤ cap_of server
    → IsBounded (record { cat = c; server = server; samples = push n x (samples_of o) })
pushed c server n x o f one fits wider =
    let (small, present) = length-push n x (samples_of o) in
    record {
      at_most = omega (arith, small, fits, wider, length-samples_of o f);
      present = present one;
    }

cap_of-le : (b : Bool) → cap_of b ≤ cap_of true
cap_of-le b = ground arith

le-cap_of : (b : Bool) → 64 ≤ cap_of b
le-cap_of b = ground arith

if-AllBounded :
    (b : Bool) (ss ts : Trails)
    → AllBounded ss
    → (b ≡ false → AllBounded ts)
    → AllBounded (if b then ss else ts)
if-AllBounded true ss ts h k = h
if-AllBounded false ss ts h k = k refl

place_point-AllBounded :
    (ts : Trails) (id : Num) (sample : Sample) (c : Option Category)
    → AllBounded ts
    → AllBounded (place_point ts id sample c)
unfolding place_point
place_point-AllBounded ts id sample none h = h
place_point-AllBounded ts id sample (some c) h =
    let t = find (object id) ts in
    let fed : Trail = record {
      cat = some c;
      server = true;
      samples = push 512 sample (samples_of t);
    } in
    if-AllBounded (is_late sample.t (last_sample (samples_of t))) ts (set (object id) fed ts) h
      (λ _.
        set-AllBounded (object id) fed ts
          (pushed (some c) true 512 sample t (find-IsBounded (object id) ts h) (omega arith)
            (omega arith) (cap_of-le (is_server t)))
          h)

module _ (fl : Floats) (now : Num) where
  append_point-AllBounded :
      (ms : Num) (os : List ObjectRow) (ts : Trails) (p : TrailPoint)
      → AllBounded ts
      → AllBounded (append_point fl now ms os ts p)
  unfolding append_point
  append_point-AllBounded ms os ts p h = place_point-AllBounded ts p.id _ _ h

  append_object-AllBounded :
      (ts : Trails) (o : ObjectRow) → AllBounded ts → AllBounded (append_object fl now ts o)
  unfolding append_object
  append_object-AllBounded ts o h =
      let t = find (object o.id) ts in
      if-AllBounded (is_server t) ts _ h (λ own.
        set-AllBounded (object o.id) _ ts (client t (find-IsBounded (object o.id) ts h) own) h)
    where
      client :
          (t : Option Trail)
          → Found t
          → is_server t ≡ false
          → IsBounded (record {
            cat = some o.cat;
            server = false;
            samples = push 64 (record { t = now; at = world_from_meters fl o.pos }) (samples_of t);
          })
      client t f own = pushed _ false 64 _ t f (omega arith) (omega arith) (ground (arith, own))

  append_satellite-AllBounded :
      (s : Option Satellite) (ts : Trails)
      → AllBounded ts
      → AllBounded (append_satellite fl now s ts)
  unfolding append_satellite
  append_satellite-AllBounded none ts h = h
  append_satellite-AllBounded (some s) ts h =
      let t = find (sat s.id) ts in
      set-AllBounded _ _ ts
        (pushed _ (is_server t) 64 _ t (find-IsBounded (sat s.id) ts h) (omega arith)
          (le-cap_of (is_server t)) (omega arith))
        h

  append_points-AllBounded :
      (ms : Num) (os : List ObjectRow) (ps : List TrailPoint) (ts : Trails)
      → AllBounded ts
      → AllBounded (append_points fl now ms os ps ts)
  unfolding append_points
  append_points-AllBounded ms os [] ts h = h
  append_points-AllBounded ms os (p ∷ ps) ts h =
      append_points-AllBounded ms os ps _ (append_point-AllBounded ms os ts p h)

  append_objects-AllBounded :
      (os : List ObjectRow) (ts : Trails) → AllBounded ts → AllBounded (append_objects fl now os ts)
  unfolding append_objects
  append_objects-AllBounded [] ts h = h
  append_objects-AllBounded (o ∷ os) ts h =
      append_objects-AllBounded os _ (append_object-AllBounded ts o h)

  prune-All :
      (ts : Trails)
      → AllBounded ts
      → All (λ kt. IsBounded kt.1 × (is_fresh fl now kt.1 ≡ true)) (prune fl now ts)
  unfolding prune
  prune-All [] h = tt
  prune-All ((k, t) ∷ ts) h = elim (Bool-cases (is_fresh fl now t)) [
    | inl p ↦ rw p ((h.0, p), prune-All ts h.1)
    | inr p ↦ rw p (prune-All ts h.1)
  ]

  append_trails-All :
      (snap : Snapshot) (ts : Trails)
      → AllBounded ts
      → All (λ kt. IsBounded kt.1 × (is_fresh fl now kt.1 ≡ true)) (append_trails fl now snap ts)
  unfolding append_trails
  append_trails-All snap ts h = prune-All _ (
      append_satellite-AllBounded snap.satellite _ (
        append_objects-AllBounded snap.objects _
          (fed (is_finite (server_time_ms fl now snap.server_time)))))
    where
      fed :
          (b : Bool)
          → AllBounded (
              if b
              then append_points fl now
                  (server_time_ms fl now snap.server_time)
                  snap.objects
                  snap.trail_points
                  ts
              else ts)
      fed true =
          append_points-AllBounded (server_time_ms fl now snap.server_time) snap.objects
            snap.trail_points ts h
      fed false = h

-- The trails after snapshots that arrive at some times.
unfoldable pub run_trails : Floats → List (Snapshot × Num) → Trails
run_trails fl [] = []
run_trails fl ((snap, now) ∷ earlier) = append_trails fl now snap (run_trails fl earlier)

without_age :
    (fl : Floats) (now : Num) (ts : Trails)
    → All (λ kt. IsBounded kt.1 × (is_fresh fl now kt.1 ≡ true)) ts
    → AllBounded ts
without_age fl now [] h = tt
without_age fl now (t ∷ ts) h = (h.0.0, without_age fl now ts h.1)

run_trails-AllBounded :
    (fl : Floats) (past : List (Snapshot × Num)) → AllBounded (run_trails fl past)
unfolding run_trails
run_trails-AllBounded fl [] = tt
run_trails-AllBounded fl ((snap, now) ∷ past) =
    without_age fl now _ (append_trails-All fl now snap _ (run_trails-AllBounded fl past))

-- After any snapshots at any times, each trail has at least one sample, at most 64 if the client
-- built it and at most 512 if the server feeds it, and its last sample is not more than 65 seconds
-- older than the last snapshot.
pub append_trails-run_trails :
    (fl : Floats) (past : List (Snapshot × Num)) (snap : Snapshot) (now : Num)
    → All
        (λ kt. IsBounded kt.1 × (is_fresh fl now kt.1 ≡ true))
        (append_trails fl now snap (run_trails fl past))
append_trails-run_trails fl past snap now =
    append_trails-All fl now snap _ (run_trails-AllBounded fl past)
