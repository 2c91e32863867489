-- ===== src/SiteConfig/Keys.antt =====
-- frontend/js/site_config.js: the documented keys and their entries in the schema.
use orbital_viewer.Base.{
  ◌≡◌, refl, sym, ap, ◌∙◌, ◌⊎◌, inl, inr, true, false, if◌then◌else◌, Bool-cases, Text, codes,
  ◌===◌, ===_iff,
}
use mathlib.Core.Bool.{false≢true}
use orbital_viewer.SiteConfig.Entries.{is_index}
use orbital_viewer.SiteConfig.{
  Kind, string, boolean, integer, SchemaEntry, Found, own, inherited, missing, of_prototype, schema,
}
use orbital_viewer.Toml.Scan.{is_digit}

-- The documented keys.
pub data Key : Type 0 where
  host port show_trails trail_seconds show_labels : Key

abbrev pub toml_key : Key → Text
toml_key host = codes "websocket.host"
toml_key port = codes "websocket.port"
toml_key show_trails = codes "display.show_trails"
toml_key trail_seconds = codes "display.trail_seconds"
toml_key show_labels = codes "display.show_labels"

abbrev pub result_key : Key → Text
result_key host = codes "host"
result_key port = codes "port"
result_key show_trails = codes "showTrails"
result_key trail_seconds = codes "trailSeconds"
result_key show_labels = codes "showLabels"

abbrev pub kind : Key → Kind
kind host = string
kind port = integer 1 65_535
kind show_trails = boolean
kind trail_seconds = integer 0 60
kind show_labels = boolean

pub schema-toml_key :
    (key : Key)
    → schema (toml_key key) ≡ own (record { kind = kind key; result_key = result_key key })
unfolding schema ◌===◌
schema-toml_key host = refl
schema-toml_key port = refl
schema-toml_key show_trails = refl
schema-toml_key trail_seconds = refl
schema-toml_key show_labels = refl

pub own-injective : {a b : SchemaEntry} → own a ≡ own b → a ≡ b
own-injective e = cc

abbrev pub entry : Key → SchemaEntry
entry key = record { kind = kind key; result_key = result_key key }

-- Every own entry of the schema is that of a documented key.
pub schema-eq-own :
    (k : Text) (e : SchemaEntry)
    → schema k ≡ own e
    → (key : Key) × (k ≡ toml_key key) × (entry key ≡ e)
unfolding schema
schema-eq-own k e h = elim (Bool-cases (k === toml_key host)) [
  | inl p ↦ (host, (===_iff _ _).0 p, own-injective (rw p at h))
  | inr n₁ ↦ elim (Bool-cases (k === toml_key port)) [
    | inl p ↦ (port, (===_iff _ _).0 p, own-injective (rw (n₁, p) at h))
    | inr n₂ ↦ elim (Bool-cases (k === toml_key show_trails)) [
      | inl p ↦ (show_trails, (===_iff _ _).0 p, own-injective (rw (n₁, n₂, p) at h))
      | inr n₃ ↦ elim (Bool-cases (k === toml_key trail_seconds)) [
        | inl p ↦ (trail_seconds, (===_iff _ _).0 p, own-injective (rw (n₁, n₂, n₃, p) at h))
        | inr n₄ ↦ elim (Bool-cases (k === toml_key show_labels)) [
          | inl p ↦ (show_labels, (===_iff _ _).0 p, own-injective (rw (n₁, n₂, n₃, n₄, p) at h))
          | inr n₅ ↦ absurd (not_own k e (rw (n₁, n₂, n₃, n₄, n₅) at h))
        ]
      ]
    ]
  ]
]
  where
    not_own :
        (k : Text) (e : SchemaEntry) → (if of_prototype k then inherited else missing) ≡ own e → ⊥
    not_own k e q = elim (Bool-cases (of_prototype k)) [
      | inl p ↦ cc (rw p at q)
      | inr p ↦ cc (rw p at q)
    ]

pub result_key_inj : (a b : Key) → result_key a ≡ result_key b → a ≡ b
unfolding ◌===◌
result_key_inj host host h = refl
result_key_inj port port h = refl
result_key_inj show_trails show_trails h = refl
result_key_inj trail_seconds trail_seconds h = refl
result_key_inj show_labels show_labels h = refl
result_key_inj a b h = absurd (false≢true ((===_iff (result_key a) (result_key b)).1 h))

pub not_index : (key : Key) → is_index (toml_key key) ≡ false
unfolding is_index is_digit
not_index host = refl
not_index port = refl
not_index show_trails = refl
not_index trail_seconds = refl
not_index show_labels = refl

pub Found-cases :
    (f : Found) → (f ≡ missing) ⊎ ((f ≡ inherited) ⊎ ((e : SchemaEntry) × (f ≡ own e)))
Found-cases missing = inl refl
Found-cases inherited = inr (inl refl)
Found-cases (own e) = inr (inr (e, refl))

pub toml_key-own : (key : Key) (k : Text) → (k === toml_key key) ≡ true → schema k ≡ own (entry key)
toml_key-own key k h = rw ((===_iff k (toml_key key)).0 h) (schema-toml_key key)

-- The own entry at `k` writes the result key of `key` exactly when `k` is the key of `key`.
pub result_key_test :
    (key : Key) (k : Text) (e : SchemaEntry)
    → schema k ≡ own e
    → (e.result_key === result_key key) ≡ (k === toml_key key)
result_key_test key k e h =
    let (other, at_k, is_e) = schema-eq-own k e h in
    elim (Bool-cases (e.result_key === result_key key)) [
      | inl p ↦
          let same : other ≡ key =
            result_key_inj other key (ap (λ d. d.result_key) is_e ∙ (===_iff _ _).0 p) in
          p ∙ sym ((===_iff _ _).1 (at_k ∙ ap toml_key same))
      | inr n ↦ elim (Bool-cases (k === toml_key key)) [
        | inl p ↦
            let same = own-injective (sym (toml_key-own key k p) ∙ h) in
            absurd (false≢true (sym n ∙ (===_iff _ _).1 (sym (ap (λ d. d.result_key) same))))
        | inr m ↦ n ∙ sym m
      ]
    ]
