-- ===== src/SiteConfig/Entries/Order.antt =====
-- frontend/js/site_config.js: the order of properties does not matter to a key that is no index.
use orbital_viewer.Base.{
  ◌≡◌, refl, ◌∙◌, inl, inr, true, not, List, [], ◌∷◌, arith, Bool-cases, keep, Text,
}
use mathlib.Core.List.{foldl, foldl-append}
use orbital_viewer.SiteConfig.Entries.{is_index, property_order, insert_index, sort_indices}

module _ {ℓ} {V : Type ℓ} where
  -- Entries whose keys are indices.
  abbrev AllIndices : List (Text × V) → Type 0
  AllIndices [] = Unit
  AllIndices ((k, v) ∷ es) = (is_index k ≡ true) × AllIndices es

  insert_index-AllIndices :
      (e : Text × V) (es : List (Text × V))
      → is_index e.0 ≡ true
      → AllIndices es
      → AllIndices (insert_index e es)
  unfolding insert_index
  insert_index-AllIndices e [] h k = (h, tt)
  insert_index-AllIndices e (f ∷ es) h (p, k) = ground (arith, insert_index-AllIndices e es h k)

  sort_indices-AllIndices : (es : List (Text × V)) → AllIndices es → AllIndices (sort_indices es)
  unfolding sort_indices
  sort_indices-AllIndices [] h = tt
  sort_indices-AllIndices ((k, v) ∷ es) (p, h) =
      insert_index-AllIndices (k, v) (sort_indices es) p (sort_indices-AllIndices es h)

  keep-AllIndices : (es : List (Text × V)) → AllIndices (keep (λ e. is_index e.0) es)
  keep-AllIndices [] = tt
  keep-AllIndices ((k, v) ∷ es) = ground (arith, keep-AllIndices es)

module _ {ℓ κ} {V : Type ℓ} {S : Type κ} (body : S → Text × V → S)
    (skip : (s : S) (e : Text × V) → is_index e.0 ≡ true → body s e ≡ s) where
  foldl-AllIndices : (s : S) (es : List (Text × V)) → AllIndices es → foldl body s es ≡ s
  foldl-AllIndices s [] h = refl
  foldl-AllIndices s ((k, v) ∷ es) (p, h) = rw (skip s (k, v) p) (foldl-AllIndices s es h)

  foldl-keep :
      (s : S) (es : List (Text × V))
      → foldl body s (keep (λ e. not (is_index e.0)) es) ≡ foldl body s es
  foldl-keep s [] = refl
  foldl-keep s (e ∷ es) = elim (Bool-cases (is_index e.0)) [
    | inl p ↦ rw (p, skip s e p) (foldl-keep s es)
    | inr p ↦ rw p (foldl-keep (body s e) es)
  ]

  -- A loop over entries, in the order of an object's properties, whose body ignores indices.
  pub foldl-property_order :
      (s : S) (es : List (Text × V)) → foldl body s (property_order es) ≡ foldl body s es
  unfolding property_order
  foldl-property_order s es =
      foldl-append body s (sort_indices (keep (λ e. is_index e.0) es))
        (keep (λ e. not (is_index e.0)) es)
      ∙ rw (foldl-AllIndices s _ (sort_indices-AllIndices _ (keep-AllIndices es))) (foldl-keep s es)
