-- ===== src/Docs/Search/Kept.antt =====
-- Which entries of an index the search keeps (runSearch of docs/site/assets/docs.js).
use mathlib.Core.Bool.{false≢true}
use orbital_viewer.Docs.Search.{member, key, first_of_each, Entry}
use orbital_viewer.Base.{
  ℕ, zero, suc, ◌≡◌, refl, sym, ap, ◌∙◌, subst, ◌⊎◌, inl, inr, Bool, true, false, List, [], ◌∷◌,
  map, Bool-cases, length, take, keep, All, Text, ◌===◌, ===_iff, ===_self,
}

pub All-keep : (p : Entry → Bool) (es : List Entry) → All (λ e. p e ≡ true) (keep p es)
All-keep p [] = tt
All-keep p (e ∷ es) = elim (Bool-cases (p e)) [
  | inl h ↦ rw h (h, All-keep p es)
  | inr h ↦ rw h (All-keep p es)
]

module _ (P : Entry → Type 0) where
  pub All-first_of_each :
      (seen : List Text) (es : List Entry) → All P es → All P (first_of_each seen es)
  unfolding first_of_each
  All-first_of_each seen [] all = tt
  All-first_of_each seen (e ∷ es) (now, all) = elim (Bool-cases (member (key e) seen)) [
    | inl h ↦ rw h (All-first_of_each seen es all)
    | inr h ↦ rw h (now, All-first_of_each (key e ∷ seen) es all)
  ]

  pub All-take : (n : ℕ) (es : List Entry) → All P es → All P (take n es)
  All-take zero es all = tt
  All-take (suc n) [] all = tt
  All-take (suc n) (e ∷ es) (now, all) = (now, All-take n es all)

-- No two entries lead to the same place of the same page.
abbrev pub Distinct : List Entry → Type 0
Distinct [] = Unit {0}
Distinct (e ∷ es) = All (λ f. (key e === key f) ≡ false) es × Distinct es

pub Distinct-take : (n : ℕ) (es : List Entry) → Distinct es → Distinct (take n es)
Distinct-take zero es d = tt
Distinct-take (suc n) [] d = tt
Distinct-take (suc n) (e ∷ es) (now, d) = (All-take _ n es now, Distinct-take n es d)

member-head : (k : Text) (ks : List Text) → member k (k ∷ ks) ≡ true
member-head k ks = rw (===_self k) refl

member-behind : (k j : Text) (ks : List Text) → member k ks ≡ true → member k (j ∷ ks) ≡ true
member-behind k j ks h = elim (Bool-cases (k === j)) [ inl p ↦ rw p refl | inr p ↦ rw p h ]

apart : (k j : Text) (ks : List Text) → member k ks ≡ true → member j ks ≡ false → (k === j) ≡ false
apart k j ks h n = elim (Bool-cases (k === j)) [
  | inl p ↦ absurd (false≢true (sym n ∙ ap (λ i. member i ks) (sym ((===_iff k j).0 p)) ∙ h))
  | inr p ↦ p
]

pub first_of_each-new :
    (k : Text) (seen : List Text) (es : List Entry)
    → member k seen ≡ true
    → All (λ f. (k === key f) ≡ false) (first_of_each seen es)
unfolding first_of_each
first_of_each-new k seen [] h = tt
first_of_each-new k seen (e ∷ es) h = elim (Bool-cases (member (key e) seen)) [
  | inl p ↦ rw p (first_of_each-new k seen es h)
  | inr p ↦ rw p (
    apart k (key e) seen h p,
    first_of_each-new k (key e ∷ seen) es (member-behind k (key e) seen h),
  )
]

pub first_of_each-Distinct : (seen : List Text) (es : List Entry) → Distinct (first_of_each seen es)
unfolding first_of_each
first_of_each-Distinct seen [] = tt
first_of_each-Distinct seen (e ∷ es) = elim (Bool-cases (member (key e) seen)) [
  | inl p ↦ rw p (first_of_each-Distinct seen es)
  | inr p ↦ rw p (
    first_of_each-new (key e) (key e ∷ seen) es (member-head (key e) seen),
    first_of_each-Distinct (key e ∷ seen) es,
  )
]

-- The entry's place is among those of the list.
abbrev pub Listed : List Entry → Entry → Type 0
Listed found e = member (key e) (map key found) ≡ true

abbrev pub Covered : List Text → List Entry → Entry → Type 0
Covered seen found e = (member (key e) seen ≡ true) ⊎ Listed found e

pub All-imp :
    (P Q : Entry → Type 0) (es : List Entry) → ((e : Entry) → P e → Q e) → All P es → All Q es
All-imp P Q [] f all = tt
All-imp P Q (e ∷ es) f (now, all) = (f e now, All-imp P Q es f all)

widen :
    (seen : List Text) (e : Entry) (found : List Entry) (f : Entry)
    → Covered (key e ∷ seen) found f
    → Covered seen (e ∷ found) f
widen seen e found f (inl h) = elim (Bool-cases (key f === key e)) [
  | inl p ↦ inr (rw p refl)
  | inr p ↦ inl (rw p at h)
]
widen seen e found f (inr h) = inr (member-behind (key f) (key e) (map key found) h)

pub first_of_each-Covered :
    (seen : List Text) (es : List Entry) → All (Covered seen (first_of_each seen es)) es
unfolding first_of_each
first_of_each-Covered seen [] = tt
first_of_each-Covered seen (e ∷ es) = elim (Bool-cases (member (key e) seen)) [
  | inl p ↦
      let same : first_of_each seen (e ∷ es) ≡ first_of_each seen es = rw p refl in
      subst (λ found. All (Covered seen found) (e ∷ es)) (sym same)
        (inl p, first_of_each-Covered seen es)
  | inr p ↦
      let found = first_of_each (key e ∷ seen) es in
      let more : first_of_each seen (e ∷ es) ≡ e ∷ found = rw p refl in
      subst (λ found. All (Covered seen found) (e ∷ es)) (sym more)
        (
          inr (member-head (key e) (map key found)),
          All-imp _ _ es (widen seen e found) (first_of_each-Covered (key e ∷ seen) es),
        )
]

pub take-cases : (n : ℕ) (es : List Entry) → (take n es ≡ es) ⊎ (length (take n es) ≡ n)
take-cases zero es = inr refl
take-cases (suc n) [] = inl refl
take-cases (suc n) (e ∷ es) = elim (take-cases n es) [
  | inl p ↦ inl (ap (e ∷◌) p)
  | inr p ↦ inr (ap suc p)
]

pub take-Listed :
    (n : ℕ) (es : List Entry) (e : Entry)
    → Covered [] es e
    → Listed (take n es) e ⊎ (length (take n es) ≡ n)
take-Listed n es e (inl h) = absurd (false≢true h)
take-Listed n es e (inr h) = elim (take-cases n es) [ inl p ↦ inl (rw p h) | inr p ↦ inr p ]

-- The first list has entries of the second, in their order.
pub data Sublist : List Entry → List Entry → Type 0 where
  done : Sublist [] []
  skip : (e : Entry) (xs ys : List Entry) → Sublist xs ys → Sublist xs (e ∷ ys)
  both : (e : Entry) (xs ys : List Entry) → Sublist xs ys → Sublist (e ∷ xs) (e ∷ ys)

Sublist-empty : (ys : List Entry) → Sublist [] ys
Sublist-empty [] = done
Sublist-empty (e ∷ ys) = skip e [] ys (Sublist-empty ys)

-- What the search keeps of an index is a sublist of it.
pub kept-Sublist :
    (p : Entry → Bool) (seen : List Text) (es : List Entry) (n : ℕ)
    → Sublist (take n (first_of_each seen (keep p es))) es
unfolding first_of_each
kept-Sublist p seen es zero = Sublist-empty es
kept-Sublist p seen [] (suc n) = done
kept-Sublist p seen (e ∷ es) (suc n) = elim (Bool-cases (p e)) [
  | inr h ↦ rw h (skip e _ es (kept-Sublist p seen es (suc n)))
  | inl h ↦ elim (Bool-cases (member (key e) seen)) [
    | inl q ↦ rw (h, q) (skip e _ es (kept-Sublist p seen es (suc n)))
    | inr q ↦ rw (h, q) (both e _ es (kept-Sublist p (key e ∷ seen) es n))
  ]
]
