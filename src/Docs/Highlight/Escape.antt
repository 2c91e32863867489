-- ===== src/Docs/Highlight/Escape.antt =====
-- What a browser shows for escaped text (esc of docs/site/assets/docs.js).
use orbital_viewer.Docs.Highlight.{replace_all, esc}
use orbital_viewer.Base.{
  ℕ, ◌≡◌, refl, sym, ap, ◌∙◌, inl, inr, Bool, true, false, not, ◌&&◌, [], ◌∷◌, ◌++◌, append_assoc,
  append-nil, arith, ◌==◌, if◌then◌else◌, ==_iff, Bool-cases, Text, codes, ◌===◌,
}

data Mode : Type 0 where
  in_text : Mode
  in_tag : Mode
  in_entity : (seen : Text) → Mode

entity : Text → Text
entity name =
    if name === codes "amp"
    then 38 ∷ []
    else if name === codes "lt"
    then 60 ∷ []
    else if name === codes "gt"
    then 62 ∷ []
    else []

-- The next mode and the text shown.
step : Mode → ℕ → Mode × Text
unfolding entity
step in_text c =
    if c == 60 then (in_tag, []) else if c == 38 then (in_entity [], []) else (in_text, c ∷ [])
step in_tag c = if c == 62 then (in_text, []) else (in_tag, [])
step (in_entity seen) c =
    if c == 59 then (in_text, entity seen) else (in_entity (seen ++ (c ∷ [])), [])

content_from : Mode → Text → Text
unfolding step
content_from mode [] = []
content_from mode (c ∷ html) = let s = step mode c in s.1 ++ content_from s.0 html

-- The text content of a piece of HTML: tags are left out and the three entities are read back.
pub content : Text → Text
unfolding content_from
content html = content_from in_text html

-- Text without a closing bracket.
unfoldable pub plain : Text → Bool
plain [] = true
plain (c ∷ s) = not (c == 62) && plain s

-- The three replacements as one, character by character.
esc_char : ℕ → Text
esc_char c =
    if c == 38
    then codes "&amp;"
    else if c == 60
    then codes "&lt;"
    else if c == 62
    then codes "&gt;"
    else c ∷ []

esc-cons : (c : ℕ) (s : Text) → esc (c ∷ s) ≡ esc_char c ++ esc s
unfolding esc esc_char replace_all
esc-cons c s = elim (Bool-cases (c == 38)) [
  | inl p ↦ rw p refl
  | inr p ↦ elim (Bool-cases (c == 60)) [
    | inl q ↦ rw (p, q) refl
    | inr q ↦ rw (p, q) (elim (Bool-cases (c == 62)) [ inl r ↦ rw r refl | inr r ↦ rw r refl ])
  ]
]

step-ordinary : (c : ℕ) → (c == 38) ≡ false → (c == 60) ≡ false → step in_text c ≡ (in_text, c ∷ [])
unfolding step
step-ordinary c p q = rw q (rw p refl)

content-ordinary :
    (c : ℕ) (rest : Text)
    → (c == 38) ≡ false
    → (c == 60) ≡ false
    → content (c ∷ rest) ≡ c ∷ content rest
unfolding content content_from
content-ordinary c rest p q =
    ap (λ (s : Mode × Text). s.1 ++ content_from s.0 rest) (step-ordinary c p q)

plain_char :
    (c : ℕ) → (c == 38) ≡ false → (c == 60) ≡ false → (c == 62) ≡ false → esc_char c ≡ c ∷ []
unfolding esc_char
plain_char c p q r = rw (p, q, r) refl

content-esc_char : (c : ℕ) (rest : Text) → content (esc_char c ++ rest) ≡ c ∷ content rest
unfolding content content_from step entity esc_char ◌===◌
content-esc_char c rest = elim (Bool-cases (c == 38)) [
  | inl p ↦ rw p (ap (λ k. k ∷ content rest) (sym ((==_iff c 38).0 p)))
  | inr p ↦ elim (Bool-cases (c == 60)) [
    | inl q ↦ rw (p, q) (ap (λ k. k ∷ content rest) (sym ((==_iff c 60).0 q)))
    | inr q ↦ elim (Bool-cases (c == 62)) [
      | inl r ↦ rw (p, q, r) (ap (λ k. k ∷ content rest) (sym ((==_iff c 62).0 r)))
      | inr r ↦ ap (λ e. content (e ++ rest)) (plain_char c p q r) ∙ content-ordinary c rest p q
    ]
  ]
]

-- Escaped text is shown as it was.
pub content-esc : (s rest : Text) → content (esc s ++ rest) ≡ s ++ content rest
unfolding esc
content-esc [] rest = refl
content-esc (c ∷ s) rest =
    ap (λ e. content (e ++ rest)) (esc-cons c s)
    ∙ ap content (append_assoc (esc_char c) (esc s) rest)
    ∙ content-esc_char c (esc s ++ rest)
    ∙ ap (c ∷◌) (content-esc s rest)

tag-ends :
    (cls rest : Text)
    → plain cls ≡ true
    → content_from in_tag (cls ++ (34 ∷ 62 ∷ rest)) ≡ content_from in_text rest
unfolding content_from step plain
tag-ends [] rest h = refl
tag-ends (c ∷ s) rest h =
    let open_still : (c == 62) ≡ false = ground (arith, h) in
    rw open_still (tag-ends s rest (ground (arith, h)))

-- The tags of a token are not shown.
pub content-open :
    (cls rest : Text)
    → plain cls ≡ true
    → content (codes "<span class=\"" ++ (cls ++ (codes "\">" ++ rest))) ≡ content rest
unfolding content content_from step
content-open cls rest h = tag-ends cls rest h

pub content-close : (rest : Text) → content (codes "</span>" ++ rest) ≡ content rest
unfolding content content_from step
content-close rest = refl

pub content-esc_all : (s : Text) → content (esc s) ≡ s
unfolding content content_from
content-esc_all s = ap content (sym (append-nil (esc s))) ∙ content-esc s [] ∙ append-nil s
