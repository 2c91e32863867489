-- ===== src/Docs/Links/Neighbours.antt =====
-- docs/site/assets/docs.js: the links to the neighbouring pages lead through all pages.
use orbital_viewer.Docs.Links.{neighbours, neighbours_at, index_of, page_before}
use mathlib.Core.Bool.{false≢true}
use orbital_viewer.Docs.Nav.{Page, flat, items_of}
use orbital_viewer.Base.{
  ℕ, zero, suc, ◌+◌, ◌≡◌, refl, sym, ap, ◌∙◌, Bool, true, false, ◌&&◌, Option, none, some, List, [],
  ◌∷◌, arith, ◌==◌, and-true, get_elem?, ◌===◌,
}

some_injective : {a b : Page} → some a ≡ some b → a ≡ b
some_injective e = cc

-- Each page is found at its own place.
is_at : ℕ → Option ℕ → Bool
is_at i none = false
is_at i (some j) = i == j

is_found : (i : ℕ) → List Page → Bool
is_found i [] = true
is_found i (p ∷ ps) = is_at i (index_of p.path flat) && is_found (i + 1) ps

all_found : is_found 0 flat ≡ true
unfolding is_found is_at flat items_of index_of ◌===◌
all_found = refl

at_place : (i : ℕ) (o : Option ℕ) → is_at i o ≡ true → o ≡ some i
unfolding is_at
at_place i none h = absurd (false≢true h)
at_place i (some j) h = ap some (ground (arith, h))

index_of-flat :
    (ps : List Page) (start i : ℕ) (p : Page)
    → is_found start ps ≡ true
    → get_elem? ps i ≡ some p
    → index_of p.path flat ≡ some (start + i)
unfolding is_found
index_of-flat [] start i p found at = absurd (none_neq at)
  where
    none_neq : none ≡ some p → ⊥
    none_neq e = cc
index_of-flat (q ∷ ps) start zero p found at =
    let here = and-true (is_at start (index_of q.path flat)) (is_found (start + 1) ps) found in
    let same : q ≡ p = some_injective at in
    ap (λ (r : Page). index_of r.path flat) (sym same)
    ∙ at_place start (index_of q.path flat) here.0
    ∙ ap some (omega arith)
index_of-flat (q ∷ ps) start (suc i) p found at =
    let here = and-true (is_at start (index_of q.path flat)) (is_found (start + 1) ps) found in
    index_of-flat ps (start + 1) i p here.1 at ∙ ap some (omega arith)

before : (ps : List Page) (i : ℕ) → page_before ps (i + 1) ≡ get_elem? ps i
unfolding page_before
before ps i = let follows : i + 1 ≡ suc i = omega arith in ap (page_before ps) follows

-- The two pages that follow one another in the navigation link to each other: the next page of the
-- one is the other, and the page before the other is the one.
pub neighbours_lem :
    (i : ℕ) (p q : Page)
    → get_elem? flat i ≡ some p
    → get_elem? flat (i + 1) ≡ some q
    → ((neighbours p.path).next ≡ some q) × ((neighbours q.path).prev ≡ some p)
unfolding neighbours neighbours_at page_before
neighbours_lem i p q here there = (
  ap (λ o. (neighbours_at flat o).next) (place i p here) ∙ there,
  ap (λ o. (neighbours_at flat o).prev) (place (i + 1) q there) ∙ before flat i ∙ here,
)
  where
    place : (j : ℕ) (r : Page) → get_elem? flat j ≡ some r → index_of r.path flat ≡ some j
    place j r at = index_of-flat flat 0 j r all_found at ∙ ap some (omega arith)
