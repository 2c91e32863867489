-- ===== src/Value.antt =====
-- JavaScript values, as far as the program's data reach: what JSON.parse returns, TOML values, and
-- `undefined` for a missing property. Objects are association lists in insertion order.
use orbital_viewer.Base.{
  Bool, true, false, not, ◌==◌, Option, none, some, List, [], ◌∷◌, Text, lookup, ◌≡◌, refl, ap,
}
use orbital_viewer.Num.{Num, fin, inf, nan, is_finite}

mutual
  pub data Value : Type 0 where
    undefined null : Value
    bool : Bool → Value
    num : Num → Value
    str : Text → Value
    arr : Items → Value
    obj : Fields → Value

  pub data Fields : Type 0 where
    end : Fields
    field : Text → Value → Fields → Fields

  pub data Items : Type 0 where
    nil : Items
    cons : Value → Items → Items

abbrev pub items : Items → List Value
items nil = []
items (cons v vs) = v ∷ items vs

abbrev pub of_items : List Value → Items
of_items [] = nil
of_items (v ∷ vs) = cons v (of_items vs)

abbrev pub fields : Fields → List (Text × Value)
fields end = []
fields (field k v fs) = (k, v) ∷ fields fs

abbrev pub of_fields : List (Text × Value) → Fields
of_fields [] = end
of_fields ((k, v) ∷ fs) = field k v (of_fields fs)

abbrev or_undefined : Option Value → Value
or_undefined none = undefined
or_undefined (some v) = v

-- `o[key]` on an own property, `undefined` if it is missing
unfoldable pub get : Text → Fields → Value
get key fs = or_undefined (lookup key (fields fs))

-- `key in o`, for a key that Object.prototype lacks
unfoldable pub is_in : Text → Fields → Bool
is_in key fs = elim (lookup key (fields fs)) [ none ↦ false | some _ ↦ true ]

-- `Boolean(v)`
unfoldable pub truthy : Value → Bool
truthy undefined = false
truthy null = false
truthy (bool b) = b
truthy (num (fin _ n _)) = not (n == 0)
truthy (num (inf _)) = true
truthy (num nan) = false
truthy (str []) = false
truthy (str (_ ∷ _)) = true
truthy (arr _) = true
truthy (obj _) = true

-- `typeof v === 'number' && Number.isFinite(v)`
unfoldable pub is_finite_number : Value → Bool
is_finite_number (num x) = is_finite x
is_finite_number _ = false

-- `v && typeof v === 'object' && !Array.isArray(v)`
unfoldable pub is_plain_object : Value → Bool
is_plain_object (obj _) = true
is_plain_object _ = false

pub items-of_items : (vs : List Value) → items (of_items vs) ≡ vs
items-of_items [] = refl
items-of_items (v ∷ vs) = ap (◌∷◌ v) (items-of_items vs)

pub fields-of_fields : (fs : List (Text × Value)) → fields (of_fields fs) ≡ fs
fields-of_fields [] = refl
fields-of_fields ((k, v) ∷ fs) = ap (◌∷◌ (k, v)) (fields-of_fields fs)
