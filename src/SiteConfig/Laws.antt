-- ===== src/SiteConfig/Laws.antt =====
-- frontend/js/site_config.js: what a config.toml configures, against the table of its documented keys.
use orbital_viewer.Base.{
  ◌≡◌, refl, sym, ap, ◌∙◌, ◌≢◌, ◌⊎◌, inl, inr, Bool, true, false, ◌&&◌, Option, none, some, List,
  [], ◌∷◌, arith, if◌then◌else◌, Bool-cases, Text, ◌===◌, ===_iff, ===_self, lookup,
}
use mathlib.Core.Bool.{false≢true}
use mathlib.Core.List.{foldl}
use orbital_viewer.Base.Outcome.{Outcome-cases, ok, err}
use orbital_viewer.SiteConfig.Keys.{
  Key, toml_key, result_key, kind, entry, schema-eq-own, not_index, Found-cases, toml_key-own,
  result_key_test,
}
use orbital_viewer.SiteConfig.Entries.{is_index, property_order, put}
use orbital_viewer.SiteConfig.{
  ignored_file, Failure, Kind, SchemaEntry, own, inherited, missing, schema, is_valid_value, Loaded,
  accept, accept_all, load_text, nothing,
}
use orbital_viewer.SiteConfig.Entries.Order.{foldl-property_order}
use orbital_viewer.Toml.Document.{parse_toml}
use orbital_viewer.Value.{Value}

-- The last valid value of a key.
abbrev pub chosen : Kind → Text → Option Value → List (Text × Value) → Option Value
chosen kd key old [] = old
chosen kd key old ((k, v) ∷ es) =
    chosen kd key (if k === key && is_valid_value kd v then some v else old) es

module _ {ℓ} {V : Type ℓ} where
  lookup-put :
      (k j : Text) (v : V) (m : List (Text × V))
      → lookup j (put k v m) ≡ (if k === j then some v else lookup j m)
  unfolding lookup put
  lookup-put k j v [] = refl
  lookup-put k j v ((i, w) ∷ m) =
      ground (arith, ===_iff k j, ===_iff i k, ===_iff i j, lookup-put k j v m)

accept-skip :
    (r : Loaded) (k : Text) (v : Value)
    → (schema k ≡ missing) ⊎ (schema k ≡ inherited)
    → (accept r k v).config ≡ r.config
unfolding accept
accept-skip r k v h = ground arith

accept-own :
    (r : Loaded) (k : Text) (v : Value) (e : SchemaEntry)
    → schema k ≡ own e
    → (accept r k v).config
      ≡ (if is_valid_value e.kind v then put e.result_key v r.config else r.config)
unfolding accept
accept-own r k v e h = ground arith

lookup-put_if :
    (b : Bool) (rk j : Text) (v : Value) (m : List (Text × Value))
    → lookup j (if b then put rk v m else m) ≡ (if rk === j && b then some v else lookup j m)
lookup-put_if true rk j v m = ground (arith, lookup-put rk j v m)
lookup-put_if false rk j v m = ground arith

-- One round of the loop, on the value of a documented key.
accept-lookup :
    (key : Key) (r : Loaded) (k : Text) (v : Value)
    → lookup (result_key key) (accept r k v).config ≡ (
        if k === toml_key key && is_valid_value (kind key) v
        then some v
        else lookup (result_key key) r.config)
accept-lookup key r k v = elim (Bool-cases (k === toml_key key)) [
  | inl p ↦
      let here = toml_key-own key k p in
      ap (lookup (result_key key)) (accept-own r k v (entry key) here)
      ∙ lookup-put_if (is_valid_value (kind key) v) (result_key key) (result_key key) v r.config
      ∙ rw (p, ===_self (result_key key))
  | inr n ↦ elim (Found-cases (schema k)) [
    | inl h ↦ ap (lookup (result_key key)) (accept-skip r k v (inl h)) ∙ rw n
    | inr (inl h) ↦ ap (lookup (result_key key)) (accept-skip r k v (inr h)) ∙ rw n
    | inr (inr (e, h)) ↦
        ap (lookup (result_key key)) (accept-own r k v e h)
        ∙ lookup-put_if (is_valid_value e.kind v) e.result_key (result_key key) v r.config
        ∙ rw (result_key_test key k e h, n)
  ]
]

accept_all-lookup :
    (key : Key) (r : Loaded) (es : List (Text × Value))
    → lookup (result_key key) (accept_all r es).config
      ≡ chosen (kind key) (toml_key key) (lookup (result_key key) r.config) es
unfolding accept_all
accept_all-lookup key r [] = refl
accept_all-lookup key r ((k, v) ∷ es) =
    accept_all-lookup key (accept r k v) es
    ∙ ap (λ o. chosen (kind key) (toml_key key) o es) (accept-lookup key r k v)

chosen-foldl :
    (kd : Kind) (key : Text) (old : Option Value) (es : List (Text × Value))
    → chosen kd key old es
      ≡ foldl (λ o e. if e.0 === key && is_valid_value kd e.1 then some e.1 else o) old es
chosen-foldl kd key old [] = refl
chosen-foldl kd key old ((k, v) ∷ es) =
    chosen-foldl kd key (if k === key && is_valid_value kd v then some v else old) es

chosen-property_order :
    (key : Key) (old : Option Value) (es : List (Text × Value))
    → chosen (kind key) (toml_key key) old (property_order es)
      ≡ chosen (kind key) (toml_key key) old es
chosen-property_order key old es =
    chosen-foldl _ _ old (property_order es)
    ∙ foldl-property_order _ skip old es
    ∙ sym (chosen-foldl _ _ old es)
  where
    skip :
        (o : Option Value) (e : Text × Value)
        → is_index e.0 ≡ true
        → (if e.0 === toml_key key && is_valid_value (kind key) e.1 then some e.1 else o) ≡ o
    skip o e h = elim (Bool-cases (e.0 === toml_key key)) [
      | inl p ↦ absurd (false≢true (sym (not_index key) ∙ (rw ((===_iff _ _).0 p) at h)))
      | inr p ↦ rw p
    ]

load_text-ok :
    (text : Text) (es : List (Text × Value))
    → parse_toml text ≡ ok es
    → load_text text ≡ accept_all nothing (property_order es)
unfolding load_text
load_text-ok text es h = rw (h, load_text)

-- Each documented key of a file that parses is configured with its value, if that has the documented
-- type and range, and is not configured otherwise; so the other keys of the file, valid or not, and
-- the order in which they stand, do not matter.
pub load_text-lookup :
    (text : Text) (key : Key) {es : List (Text × Value)}
    → parse_toml text ≡ ok es
    → lookup (result_key key) (load_text text).config ≡ chosen (kind key) (toml_key key) none es
unfolding lookup
load_text-lookup text key {es} h =
    ap (λ l. lookup (result_key key) l.config) (load_text-ok text es h)
    ∙ accept_all-lookup key nothing (property_order es)
    ∙ chosen-property_order key none es

load_text-err :
    (text : Text) (f : Failure)
    → parse_toml text ≡ err f
    → load_text text ≡ record { config = []; warnings = ignored_file f ∷ [] }
unfolding load_text
load_text-err text f h = rw (h, load_text)

put-other :
    (k j : Text) (v : Value) (m : List (Text × Value)) → k ≢ j → lookup j (put k v m) ≡ lookup j m
put-other k j v m n = ground (arith, lookup-put k j v m, ===_iff k j)

accept-other :
    (rk : Text) (r : Loaded) (k : Text) (v : Value)
    → ((key : Key) → result_key key ≢ rk)
    → lookup rk (accept r k v).config ≡ lookup rk r.config
accept-other rk r k v h = elim (Found-cases (schema k)) [
  | inl m ↦ ap (lookup rk) (accept-skip r k v (inl m))
  | inr (inl m) ↦ ap (lookup rk) (accept-skip r k v (inr m))
  | inr (inr (e, m)) ↦
      let (key, _, is_e) = schema-eq-own k e m in
      let rk_ne : e.result_key ≢ rk = λ q. h key (ap (λ d. d.result_key) is_e ∙ q) in
      ap (lookup rk) (accept-own r k v e m)
      ∙ lookup-put_if (is_valid_value e.kind v) e.result_key rk v r.config
      ∙ ground (arith, ===_iff e.result_key rk)
]

accept_all-other :
    (rk : Text) (r : Loaded) (es : List (Text × Value))
    → ((key : Key) → result_key key ≢ rk)
    → lookup rk (accept_all r es).config ≡ lookup rk r.config
unfolding accept_all
accept_all-other rk r [] h = refl
accept_all-other rk r ((k, v) ∷ es) h =
    accept_all-other rk (accept r k v) es h ∙ accept-other rk r k v h

-- Whatever the file holds, no property but those of the five documented keys is ever configured.
pub load_text-other :
    (text rk : Text)
    → ((key : Key) → result_key key ≢ rk)
    → lookup rk (load_text text).config ≡ none
unfolding load_text lookup
load_text-other text rk h = elim (Outcome-cases (parse_toml text)) [
  | inl (es, p) ↦
      ap (λ l. lookup rk l.config) (load_text-ok text es p)
      ∙ accept_all-other rk nothing (property_order es) h
  | inr (f, p) ↦ ap (λ (l : Loaded). lookup rk l.config) (load_text-err text f p)
]
