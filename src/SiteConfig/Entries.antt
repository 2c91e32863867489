-- ===== src/SiteConfig/Entries.antt =====
-- The order of an object's properties, and assignment to a property. `Object.entries` lists the keys
-- that are array indices first, in ascending order, and then the others as they were inserted.
pub mod Order
use orbital_viewer.Base.{
  ℕ, ◌+◌, ◌-◌, ◌*◌, ◌^◌, Bool, false, not, ◌&&◌, List, [], ◌∷◌, ◌++◌, ltb, leb, ◌==◌, if◌then◌else◌,
  every, keep, Text, ◌===◌,
}
use orbital_viewer.Toml.Scan.{is_digit}

index_value : ℕ → Text → ℕ
index_value acc [] = acc
index_value acc (c ∷ s) = index_value (10 * acc + (c - b'0')) s

-- A canonical decimal numeral below 2 ^ 32 - 1.
unfoldable pub is_index : Text → Bool
unfolding index_value
is_index [] = false
is_index (c ∷ []) = is_digit c
is_index (c ∷ d ∷ s) =
    let digits = c ∷ d ∷ s in
    not (c == b'0') && every is_digit digits && ltb (index_value 0 digits) (2 ^ 32 - 1)

module _ {ℓ} {V : Type ℓ} where
  -- Into a list of indices that ascends.
  insert_index : Text × V → List (Text × V) → List (Text × V)
  insert_index e [] = e ∷ []
  insert_index e (f ∷ fs) =
      if leb (index_value 0 f.0) (index_value 0 e.0) then f ∷ insert_index e fs else e ∷ f ∷ fs

  sort_indices : List (Text × V) → List (Text × V)
  sort_indices [] = []
  sort_indices (e ∷ es) = insert_index e (sort_indices es)

  unfoldable pub property_order : List (Text × V) → List (Text × V)
  unfolding insert_index sort_indices index_value
  property_order es =
      sort_indices (keep (λ e. is_index e.0) es) ++ keep (λ e. not (is_index e.0)) es

  -- `o[key] = v`
  unfoldable pub put : Text → V → List (Text × V) → List (Text × V)
  put key v [] = (key, v) ∷ []
  put key v ((k, w) ∷ es) = if k === key then (key, v) ∷ es else (k, w) ∷ put key v es
