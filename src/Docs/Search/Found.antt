-- ===== src/Docs/Search/Found.antt =====
-- What the search finds (runSearch of docs/site/assets/docs.js).
use orbital_viewer.Docs.Search.Terms.{HasTerms, matches-HasTerms}
use orbital_viewer.Docs.Nav.{href}
use mathlib.Core.Bool.{false≢true}
use orbital_viewer.Docs.Search.{
  Panel, full_index, split_space, show, closed, trim, run_search, matches, hits, first_of_each,
  Entry, link, links, no_matches, Link,
}
use orbital_viewer.Docs.Search.Kept.{
  All-keep, All-first_of_each, All-take, Distinct, Distinct-take, first_of_each-Distinct, Listed,
  All-imp, first_of_each-Covered, take-Listed, Sublist, kept-Sublist,
}
use orbital_viewer.Base.{
  ℕ, ◌≤◌, ◌≡◌, refl, sym, ◌∙◌, subst, ◌≢◌, ◌⊎◌, inl, inr, Bool, true, false, List, [], ◌∷◌, ◌++◌,
  map, append-nil, arith, ltb, if◌then◌else◌, Bool-cases, length, take, keep, length-take, All,
  Text, codes, ◌===◌, ===_iff,
}

-- What the search promises of the entries found for the terms in an index.
pub record IsFound (lower : Text → Text) (terms : List Text) (index found : List Entry)
    : Type 0 where
  pub ordered : Sublist found index
  pub holds : All (HasTerms lower terms) found
  pub distinct : Distinct found
  pub bounded : length found ≤ 20
  pub complete : All (λ e. HasTerms lower terms e → Listed found e ⊎ (length found ≡ 20)) index

All-kept :
    (P : Entry → Type 0) (p : Entry → Bool) (es : List Entry)
    → All P (keep p es)
    → All (λ e. p e ≡ true → P e) es
All-kept P p [] h = tt
All-kept P p (e ∷ es) h = elim (Bool-cases (p e)) [
  | inl q ↦ let (now, more) = rw q at h in (λ _. now, All-kept P p es more)
  | inr q ↦ (λ yes. absurd (false≢true (sym q ∙ yes)), All-kept P p es (rw q at h))
]

hits-IsFound :
    (lower : Text → Text) (terms : List Text) (index : List Entry)
    → IsFound lower terms index (hits lower terms index)
unfolding hits
hits-IsFound lower terms index =
    let kept = keep (matches lower terms) index in
    let each = first_of_each [] kept in
    let found = take 20 each in
    record {
      ordered = kept-Sublist (matches lower terms) [] index 20;
      holds =
          All-imp _ _ found (λ e. (matches-HasTerms lower terms e).0)
            (All-take _ 20 each
              (All-first_of_each _ [] kept (All-keep (matches lower terms) index)));
      distinct = Distinct-take 20 each (first_of_each-Distinct [] kept);
      bounded = omega (arith, length-take 20 each);
      complete =
          All-imp (λ e. matches lower terms e ≡ true → Listed found e ⊎ (length found ≡ 20))
            (λ e. HasTerms lower terms e → Listed found e ⊎ (length found ≡ 20)) index
            (λ e h g. h ((matches-HasTerms lower terms e).1 g))
            (All-kept _ (matches lower terms) index
              (All-imp _ _ kept (take-Listed 20 each) (first_of_each-Covered [] kept)));
    }

-- Where the page's link leads, with its texts.
abbrev pub Leads : (root : Text) → Entry → Link → Type 0
Leads root e l =
    (l.page_title ≡ e.title)
    × (l.part ≡ e.section)
    × (e.anchor ≡ [] → l.target ≡ href root e.page)
    × (e.anchor ≢ [] → l.target ≡ href root e.page ++ (codes "#" ++ e.anchor))

link-Leads : (root : Text) (e : Entry) → Leads root e (link root e)
link-Leads root e = (
  refl,
  refl,
  λ h. rw ((===_iff e.anchor []).1 h) (append-nil (href root e.page)),
  λ h. elim (Bool-cases (e.anchor === [])) [
    | inl p ↦ absurd (h ((===_iff e.anchor []).0 p))
    | inr p ↦ rw p refl
  ],
)

-- The links are those of the entries, one by one.
abbrev pub AllLead : (root : Text) → List Entry → List Link → Type 0
AllLead root [] [] = Unit {0}
AllLead root (e ∷ es) (l ∷ ls) = Leads root e l × AllLead root es ls
AllLead root [] (l ∷ ls) = ⊥
AllLead root (e ∷ es) [] = ⊥

map-AllLead : (root : Text) (es : List Entry) → AllLead root es (map (link root) es)
map-AllLead root [] = tt
map-AllLead root (e ∷ es) = (link-Leads root e, map-AllLead root es)

-- What the box shows of the entries found: that there are none, or a link for each.
abbrev pub Shows : (root : Text) → List Entry → Panel → Type 0
Shows root [] p = p ≡ no_matches
Shows root (e ∷ es) p = (ls : List Link) × (p ≡ links ls) × AllLead root (e ∷ es) ls

show-Shows : (root : Text) (es : List Entry) → Shows root es (show root es)
show-Shows root [] = refl
show-Shows root (e ∷ es) = (_, refl, map-AllLead root (e ∷ es))

-- A query of at least two characters, its outer white space taken off, opens the list with the
-- entries found for its terms in the generated index with the pages behind it: with a link for each,
-- in the index's order, that has its title and section and leads to its page and anchor; where no
-- entry is found, the list says that nothing matches. Each entry found is one of the index and has
-- all the terms in its title, section and text, no two lead to the same place, they are at most 20,
-- and each entry of the index that has all the terms has its place among them, unless they are 20.
pub run_search-IsFound :
    (lower : Text → Text) (search_index : List Entry) (root q : Text)
    → 2 ≤ length (lower (trim q))
    → (found : List Entry) × Shows root found (run_search lower search_index root q)
      × IsFound lower (split_space (lower (trim q))) (full_index search_index) found
unfolding run_search
run_search-IsFound lower search_index root q long =
    let word = lower (trim q) in
    let found = hits lower (split_space word) (full_index search_index) in
    (
      found,
      subst (Shows root found)
          (sym (
            if_false (ltb (length word) 2) closed (show root found)
              (long_enough (length word) long)))
          (show-Shows root found),
      hits-IsFound lower (split_space word) (full_index search_index),
    )
  where
    long_enough : (n : ℕ) → 2 ≤ n → ltb n 2 ≡ false
    long_enough n h = ground (arith, h)

    if_false : (b : Bool) (x y : Panel) → b ≡ false → (if b then x else y) ≡ y
    if_false b x y h = rw h refl
