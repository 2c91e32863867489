-- ===== src/Renderer/Trails.antt =====
-- frontend/js/renderer.js: appendTrails. The map of trails is a list of pairs in insertion order.
pub mod Bounded
use orbital_viewer.Model.{Snapshot}
use orbital_viewer.Num.{lt, le, whole, is_finite, nan, Num, eq}
use orbital_viewer.Net.Message.{TrailPoint, ObjectRow, Vec3, Satellite, Category}
use orbital_viewer.Renderer.Scene.{world_from_meters, Floats}
use orbital_viewer.Base.{
  ℕ, zero, suc, ◌+◌, ◌-◌, ◌*◌, ◌/◌, ◌%◌, ◌^◌, ◌≤◌, ◌<◌, min, max, ◌≡◌, refl, sym, ap, ◌∙◌, subst,
  fun_ext, ◌≡⟨◌⟩◌, ◌∎, ◌≢◌, ◌↔◌, ◌⊎◌, inl, inr, Bool, true, false, not, ◌&&◌, ◌||◌, Option, none,
  some, List, [], ◌∷◌, ◌++◌, map, append_assoc, append-nil, arith, ltb, leb, ◌==◌, if◌then◌else◌,
  ltb→lt, lt→ltb, leb→le, ==_iff, tests, Bool-cases, Option-cases, and-true, length, take,
  get_elem?, every, keep, length-append, length-take, length-map, All, All-append, Text, codes,
  ◌===◌, ===_iff, ===_self, lookup, has,
}

-- The key of an object's trail is its id, that of the satellite's trail `'sat:' + id`.
pub data Key : Type 0 where
  object sat : Num → Key

unfoldable pub same_key : Key → Key → Bool
same_key (object i) (object j) = eq i j
same_key (sat i) (sat j) = eq i j
same_key _ _ = false

pub record Sample : Type 0 where
  pub t : Num
  pub at : Vec3

-- `cat` is none for the satellite.
pub record Trail : Type 0 where
  pub cat : Option Category
  pub server : Bool
  pub samples : List Sample

abbrev pub Trails : Type 0
Trails = List (Key × Trail)

unfoldable pub find : Key → Trails → Option Trail
find k [] = none
find k ((j, t) ∷ ts) = if same_key j k then some t else find k ts

-- `trails.set(k, t)`
unfoldable pub set : Key → Trail → Trails → Trails
set k t [] = (k, t) ∷ []
set k t ((j, u) ∷ ts) = let rest = set k t ts in if same_key j k then (j, t) ∷ ts else (j, u) ∷ rest

-- `catById.get(id)`: the last object row with the id.
unfoldable pub cat_by_id : Num → List ObjectRow → Option Category
cat_by_id id [] = none
cat_by_id id (o ∷ os) = elim (cat_by_id id os) [
  | some c ↦ some c
  | none ↦ if eq o.id id then some o.cat else none
]

unfoldable pub last_sample : List Sample → Option Sample
last_sample [] = none
last_sample (s ∷ []) = some s
last_sample (s ∷ r ∷ ss) = last_sample (r ∷ ss)

abbrev shift : List Sample → List Sample
shift [] = []
shift (s ∷ ss) = ss

-- `t.s.push(x); if (t.s.length > cap) t.s.shift();`
unfoldable pub push : (cap : ℕ) → Sample → List Sample → List Sample
push cap x ss =
    let longer = ss ++ x ∷ [] in if ltb cap (length longer) then shift longer else longer

abbrev pub samples_of : Option Trail → List Sample
samples_of none = []
samples_of (some t) = t.samples

abbrev cat_of : Option Trail → Option Category
cat_of none = none
cat_of (some t) = t.cat

abbrev pub is_server : Option Trail → Bool
is_server none = false
is_server (some t) = t.server

abbrev or_else : Option Category → Option Category → Option Category
or_else (some c) d = some c
or_else none d = d

-- `t && t.s.length && tMs <= t.s[t.s.length - 1].t`
abbrev is_late : Num → Option Sample → Bool
is_late t none = false
is_late t (some s) = le t s.t

-- The round's end, once the category is known: `none` has no entry in CAT.
unfoldable pub place_point : Trails → (id : Num) → Sample → Option Category → Trails
place_point ts id sample none = ts
place_point ts id sample (some c) =
    let t = find (object id) ts in
    if is_late sample.t (last_sample (samples_of t))
    then ts
    else set (object id)
        (record { cat = some c; server = true; samples = push 512 sample (samples_of t) }) ts

module _ (fl : Floats) (now : Num) where
  -- One round of the loop over trailPoints.
  unfoldable pub append_point : (server_ms : Num) → List ObjectRow → Trails → TrailPoint → Trails
  unfolding place_point
  append_point server_ms os ts p =
      let t_ms = fl.sub now (fl.sub server_ms (fl.mul p.t (whole 1000))) in
      place_point ts p.id (record { t = t_ms; at = world_from_meters fl p.pos })
        (or_else (cat_by_id p.id os) (cat_of (find (object p.id) ts)))

  -- One round of the loop over objects.
  unfoldable pub append_object : Trails → ObjectRow → Trails
  append_object ts o =
      let t = find (object o.id) ts in
      let sample : Sample = record { t = now; at = world_from_meters fl o.pos } in
      if is_server t
      then ts
      else set (object o.id)
          (record { cat = some o.cat; server = false; samples = push 64 sample (samples_of t) }) ts

  unfoldable pub append_satellite : Option Satellite → Trails → Trails
  append_satellite none ts = ts
  append_satellite (some s) ts =
      let t = find (sat s.id) ts in
      let sample : Sample = record { t = now; at = world_from_meters fl s.pos } in
      set (sat s.id)
        (record { cat = cat_of t; server = is_server t; samples = push 64 sample (samples_of t) })
        ts

  unfoldable pub is_fresh : Trail → Bool
  is_fresh t = elim (last_sample t.samples) [
    | none ↦ false
    | some s ↦ not (lt (whole 65_000) (fl.sub now s.t))
  ]

  unfoldable pub prune : Trails → Trails
  prune ts = keep (λ kt. is_fresh kt.1) ts

  unfoldable pub append_points :
      (server_ms : Num) → List ObjectRow → List TrailPoint → Trails → Trails
  append_points server_ms os [] ts = ts
  append_points server_ms os (p ∷ ps) ts =
      append_points server_ms os ps (append_point server_ms os ts p)

  unfoldable pub append_objects : List ObjectRow → Trails → Trails
  append_objects [] ts = ts
  append_objects (o ∷ os) ts = append_objects os (append_object ts o)

  abbrev pub server_time_ms : Option Text → Num
  server_time_ms none = nan
  server_time_ms (some []) = nan
  server_time_ms (some (c ∷ s)) = fl.parse_date (c ∷ s)

  unfoldable pub append_trails : Snapshot → Trails → Trails
  unfolding append_points append_objects append_satellite prune
  append_trails snap ts =
      let ms = server_time_ms snap.server_time in
      let fed = if is_finite ms then append_points ms snap.objects snap.trail_points ts else ts in
      prune (append_satellite snap.satellite (append_objects snap.objects fed))
