-- ===== src/Docs/Search/Terms.antt =====
-- The terms of a search in an entry's texts (runSearch of docs/site/assets/docs.js).
use mathlib.Core.Bool.{false≢true}
use orbital_viewer.Docs.Search.{Entry, contains, starts_with, matches}
use orbital_viewer.Base.{
  ◌≡◌, refl, sym, ap, ◌∙◌, inl, inr, true, List, [], ◌∷◌, ◌++◌, arith, ◌==◌, ==_iff, Bool-cases,
  and-true, every, All, Text, codes,
}

-- The word stands in the text.
abbrev pub OccursIn : (hay word : Text) → Type 0
OccursIn hay word = (before : Text) × (after : Text) × (hay ≡ before ++ (word ++ after))

starts_with-split :
    (word s : Text) → starts_with word s ≡ true → (after : Text) × (s ≡ word ++ after)
unfolding starts_with
starts_with-split [] s h = (s, refl)
starts_with-split (c ∷ word) [] h = absurd (false≢true h)
starts_with-split (c ∷ word) (d ∷ s) h =
    let (same, more) = and-true (c == d) (starts_with word s) h in
    let (after, e) = starts_with-split word s more in
    (after, ap (d ∷◌) e ∙ ap (◌∷ (word ++ after)) (sym ((==_iff c d).0 same)))

starts_with-append : (word after : Text) → starts_with word (word ++ after) ≡ true
unfolding starts_with
starts_with-append [] after = refl
starts_with-append (c ∷ word) after = rw ((==_iff c c).1 refl, starts_with-append word after) refl

contains-OccursIn : (hay word : Text) → contains hay word ≡ true → OccursIn hay word
unfolding contains
contains-OccursIn [] word h = let (after, e) = starts_with-split word [] h in ([], after, e)
contains-OccursIn (c ∷ s) word h = elim (Bool-cases (starts_with word (c ∷ s))) [
  | inl p ↦ let (after, e) = starts_with-split word (c ∷ s) p in ([], after, e)
  | inr p ↦
      let (before, after, e) = contains-OccursIn s word (rw p at h) in
      (c ∷ before, after, ap (c ∷◌) e)
]

OccursIn-contains : (before word after : Text) → contains (before ++ (word ++ after)) word ≡ true
unfolding contains
OccursIn-contains [] word after = prefix word (word ++ after) (starts_with-append word after)
  where
    prefix : (word s : Text) → starts_with word s ≡ true → contains s word ≡ true
    prefix word [] h = h
    prefix word (c ∷ s) h = rw h refl
OccursIn-contains (c ∷ before) word after = ground (arith, OccursIn-contains before word after)

-- All terms stand in the entry's title, section and text, in small letters.
abbrev pub HasTerms : (lower : Text → Text) (terms : List Text) → Entry → Type 0
HasTerms lower terms e =
    All (OccursIn (lower (e.title ++ codes " " ++ e.section ++ codes " " ++ e.text))) terms

pub matches-HasTerms :
    (lower : Text → Text) (terms : List Text) (e : Entry)
    → (matches lower terms e ≡ true → HasTerms lower terms e)
      × (HasTerms lower terms e → matches lower terms e ≡ true)
unfolding matches
matches-HasTerms lower terms e =
    let hay = lower (e.title ++ codes " " ++ e.section ++ codes " " ++ e.text) in
    (to hay terms, from hay terms)
  where
    to :
        (hay : Text) (terms : List Text)
        → every (contains hay) terms ≡ true
        → All (OccursIn hay) terms
    to hay [] h = tt
    to hay (word ∷ terms) h =
        let (now, more) = and-true (contains hay word) (every (contains hay) terms) h in
        (contains-OccursIn hay word now, to hay terms more)

    from :
        (hay : Text) (terms : List Text)
        → All (OccursIn hay) terms
        → every (contains hay) terms ≡ true
    from hay [] h = refl
    from hay (word ∷ terms) ((before, after, e), more) =
        let now : contains hay word ≡ true = rw e (OccursIn-contains before word after) in
        rw (now, from hay terms more) refl
