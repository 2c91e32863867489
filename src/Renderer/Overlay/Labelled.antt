-- ===== src/Renderer/Overlay/Labelled.antt =====
-- frontend/js/renderer.js: which objects drawOverlay labels.
use orbital_viewer.Renderer.Overlay.{eye_distance, insert_near, sort_near, label_list, label_cap}
use orbital_viewer.Renderer.Projection.{behind_earth}
use orbital_viewer.Renderer.Scene.{Sprite}
use orbital_viewer.Num.{lt, is_nan}
use orbital_viewer.Num.Order.{lt_asym, not_lt_trans}
use orbital_viewer.Sky.{MathFns}
use orbital_viewer.Net.Message.{Vec3}
use mathlib.Core.List.{Perm}
use mathlib.Core.List.Perm
use orbital_viewer.Base.{
  ℕ, zero, suc, min, ◌≡◌, refl, sym, ap, ◌∙◌, subst, inl, inr, false, not, List, [], ◌∷◌, ◌++◌,
  append-nil, arith, ltb, Bool-cases, length, take, keep, length-take, All,
}

module _ (eye : Vec3) where
  -- The second is not nearer than the first.
  abbrev pub NotNearer : Sprite → Sprite → Type 0
  NotNearer o p = lt (eye_distance eye p) (eye_distance eye o) ≡ false

  -- The distance is a number.
  abbrev pub IsPlaced : Sprite → Type 0
  IsPlaced o = is_nan (eye_distance eye o) ≡ false

  -- No object is nearer than one in front of it.
  abbrev IsSorted : List Sprite → Type 0
  IsSorted [] = Unit
  IsSorted (o ∷ os) = All (NotNearer o) os × IsSorted os

  farther :
      (o p : Sprite) (os : List Sprite)
      → IsPlaced p
      → NotNearer o p
      → All (NotNearer p) os
      → All (NotNearer o) os
  farther o p [] number h hs = tt
  farther o p (q ∷ os) number h (g, hs) = (
    not_lt_trans (eye_distance eye o) (eye_distance eye p) (eye_distance eye q) number h g,
    farther o p os number h hs,
  )

  insert_near-All :
      (P : Sprite → Type 0) (o : Sprite) (os : List Sprite)
      → P o
      → All P os
      → All P (insert_near eye o os)
  unfolding insert_near
  insert_near-All P o [] h hs = (h, tt)
  insert_near-All P o (p ∷ os) h (g, hs) =
      elim (Bool-cases (lt (eye_distance eye p) (eye_distance eye o))) [
        | inl c ↦ rw c (g, insert_near-All P o os h hs)
        | inr c ↦ rw c (h, (g, hs))
      ]

  sort_near-All : (P : Sprite → Type 0) (os : List Sprite) → All P os → All P (sort_near eye os)
  unfolding sort_near
  sort_near-All P [] h = tt
  sort_near-All P (o ∷ os) (h, hs) =
      insert_near-All P o (sort_near eye os) h (sort_near-All P os hs)

  insert_near-IsSorted :
      (o : Sprite) (os : List Sprite)
      → IsPlaced o
      → All IsPlaced os
      → IsSorted os
      → IsSorted (insert_near eye o os)
  unfolding insert_near
  insert_near-IsSorted o [] number numbers sorted = (tt, tt)
  insert_near-IsSorted o (p ∷ os) number (placed, numbers) (first, sorted) =
      elim (Bool-cases (lt (eye_distance eye p) (eye_distance eye o))) [
        | inl c ↦ rw c (
          insert_near-All (NotNearer p) o os (lt_asym (eye_distance eye p) (eye_distance eye o) c)
              first,
          insert_near-IsSorted o os number numbers sorted,
        )
        | inr c ↦ rw c ((c, farther o p os placed c first), (first, sorted))
      ]

  sort_near-IsSorted : (os : List Sprite) → All IsPlaced os → IsSorted (sort_near eye os)
  unfolding sort_near
  sort_near-IsSorted [] h = tt
  sort_near-IsSorted (o ∷ os) (h, hs) =
      insert_near-IsSorted o (sort_near eye os) h (sort_near-All IsPlaced os hs)
        (sort_near-IsSorted os hs)

  insert_near-perm : (o : Sprite) (os : List Sprite) → Perm (insert_near eye o os) (o ∷ os)
  unfolding insert_near
  insert_near-perm o [] = Perm.refl (o ∷ [])
  insert_near-perm o (p ∷ os) = elim (Bool-cases (lt (eye_distance eye p) (eye_distance eye o))) [
    | inl c ↦ rw c (Perm.trans (Perm.cons p (insert_near-perm o os)) (Perm.swap o p os))
    | inr c ↦ rw c (Perm.refl (o ∷ p ∷ os))
  ]

  sort_near-perm : (os : List Sprite) → Perm (sort_near eye os) os
  unfolding sort_near
  sort_near-perm [] = Perm.refl []
  sort_near-perm (o ∷ os) =
      Perm.trans (insert_near-perm o (sort_near eye os)) (Perm.cons o (sort_near-perm os))

  length-insert_near :
      (o : Sprite) (os : List Sprite) → length (insert_near eye o os) ≡ suc (length os)
  unfolding insert_near
  length-insert_near o [] = refl
  length-insert_near o (p ∷ os) = elim (Bool-cases (lt (eye_distance eye p) (eye_distance eye o))) [
    | inl c ↦ rw c (ap suc (length-insert_near o os))
    | inr c ↦ rw c refl
  ]

  length-sort_near : (os : List Sprite) → length (sort_near eye os) ≡ length os
  unfolding sort_near
  length-sort_near [] = refl
  length-sort_near (o ∷ os) = length-insert_near o (sort_near eye os) ∙ ap suc (length-sort_near os)

  -- Cut in two, a sorted list has nothing in its rest that is nearer than something in front.
  cut :
      (n : ℕ) (os : List Sprite)
      → IsSorted os
      → (rest : List Sprite) × (os ≡ take n os ++ rest)
        × All (λ o. All (NotNearer o) rest) (take n os)
  cut zero os sorted = (os, refl, tt)
  cut (suc n) [] sorted = ([], refl, tt)
  cut (suc n) (o ∷ os) (first, sorted) =
      let (rest, same, far) = cut n os sorted in
      (
        rest,
        ap (o ∷◌) same,
        (All-rest (NotNearer o) (take n os) rest (subst (All (NotNearer o)) same first), far),
      )
    where
      All-rest : (P : Sprite → Type 0) (xs ys : List Sprite) → All P (xs ++ ys) → All P ys
      All-rest P [] ys h = h
      All-rest P (x ∷ xs) ys (p, h) = All-rest P xs ys h

-- The objects that nothing hides.
unfoldable pub in_front : MathFns → (eye : Vec3) → List Sprite → List Sprite
unfolding behind_earth
in_front fns eye sprites = keep (λ o. not (behind_earth fns eye o.at)) sprites

-- Where the distances are numbers: the objects labelled are min 200 n of the n drawn ones that the
-- Earth does not hide, each once, and none of the others is nearer to the eye than one of them.
pub label_list_lem :
    (fns : MathFns) (eye : Vec3) (sprites : List Sprite)
    → All (IsPlaced eye) (in_front fns eye sprites)
    → let labelled = label_list fns eye sprites in
      (length labelled ≡ min label_cap (length (in_front fns eye sprites)))
      × (rest : List Sprite) × Perm (labelled ++ rest) (in_front fns eye sprites)
      × All (λ o. All (NotNearer eye o) rest) labelled
unfolding label_list in_front
label_list_lem fns eye sprites numbers =
    let list = in_front fns eye sprites in
    let sorted = sort_near eye list in
    elim (Bool-cases (ltb label_cap (length list))) [
      | inl p ↦
          let (rest, same, far) = cut eye label_cap sorted (sort_near-IsSorted eye list numbers) in
          rw p (
            length-take label_cap sorted ∙ ap (min label_cap) (length-sort_near eye list),
            rest,
            subst (λ (os : List Sprite). Perm os list) same (sort_near-perm eye list),
            far,
          )
      | inr p ↦ rw p (
        ground (arith, p),
        [],
        subst (λ (os : List Sprite). Perm os list) (sym (append-nil list)) (Perm.refl list),
        nothing_left list,
      )
    ]
  where
    nothing_left : (os : List Sprite) → All (λ o. All (NotNearer eye o) []) os
    nothing_left [] = tt
    nothing_left (o ∷ os) = (tt, nothing_left os)
