-- ===== src/Docs/Highlight/Content.antt =====
-- The highlighter keeps the text.
use orbital_viewer.Docs.Highlight.{
  sort, Exec, esc, collect, highlight_with, highlight, Token, drop, slice, render,
}
use orbital_viewer.Docs.Highlight.Escape.{
  content-esc_all, plain, content, content-esc, content-open, content-close,
}
use orbital_viewer.Docs.Highlight.Tokens.{Chain, FindsAny, Sound, claim-Sound, sort-Chain}
use orbital_viewer.Docs.Langs.{langs, Spec}
use orbital_viewer.Base.{
  ℕ, zero, suc, ◌+◌, ◌-◌, ◌≤◌, ◌≡◌, refl, sym, ap, ◌∙◌, Option, none, some, List, [], ◌∷◌, ◌++◌,
  arith, take, Text, codes, lookup,
}

drop-nil : (n : ℕ) → drop n [] ≡ []
drop-nil zero = refl
drop-nil (suc n) = refl

take-drop : (n : ℕ) (xs : Text) → take n xs ++ drop n xs ≡ xs
take-drop zero xs = refl
take-drop (suc n) [] = refl
take-drop (suc n) (x ∷ xs) = ap (x ∷◌) (take-drop n xs)

suc_add : (m n : ℕ) → suc (m + n) ≡ suc m + n
suc_add m n = omega arith

drop-drop : (n m : ℕ) (xs : Text) → drop n (drop m xs) ≡ drop (m + n) xs
drop-drop n zero xs = ap (λ k. drop k xs) (omega arith)
drop-drop n (suc m) [] = drop-nil n ∙ sym (drop-nil (suc m + n))
drop-drop n (suc m) (x ∷ xs) = drop-drop n m xs ∙ ap (λ k. drop k (x ∷ xs)) (suc_add m n)

slice-drop : (src : Text) (a b : ℕ) → a ≤ b → slice src a b ++ drop b src ≡ drop a src
unfolding slice
slice-drop src a b h =
    let rest : drop (b - a) (drop a src) ≡ drop b src =
      drop-drop (b - a) a src ∙ ap (λ k. drop k src) (omega (arith, h)) in
    ap (take (b - a) (drop a src) ++◌) (sym rest) ∙ take-drop (b - a) (drop a src)

-- The tokens of a row are shown with the text between them.
content-render :
    (src : Text) (pos : ℕ) (ts : List Token)
    → Chain pos ts
    → content (render src pos ts) ≡ drop pos src
unfolding render Chain
content-render src pos [] chain = content-esc_all (drop pos src)
content-render src pos (t ∷ ts) (h, wide, p, chain) =
    let text = slice src pos t.start in
    let inside = slice src t.start t.end in
    let later = render src t.end ts in
    let closed : content (esc inside ++ (codes "</span>" ++ later)) ≡ drop t.start src =
      content-esc inside (codes "</span>" ++ later)
      ∙ ap (inside ++◌) (content-close later ∙ content-render src t.end ts chain)
      ∙ slice-drop src t.start t.end (omega (arith, wide)) in
    content-esc text (
      codes "<span class=\""
      ++ (t.cls ++ (codes "\">" ++ (esc inside ++ (codes "</span>" ++ later)))))
    ∙ ap (text ++◌) (content-open t.cls (esc inside ++ (codes "</span>" ++ later)) p ∙ closed)
    ∙ slice-drop src pos t.start h

collect-Sound :
    (exec : Exec) (src : Text) (spec : Spec)
    → FindsAny exec src spec.comment
    → FindsAny exec src spec.string
    → FindsAny exec src spec.keyword
    → FindsAny exec src spec.number
    → (ts : List Token) × (collect exec src spec ≡ some ts) × Sound ts
unfolding collect plain
collect-Sound exec src spec c s k n =
    let (t1, e1, s1) = claim-Sound exec src spec.comment (codes "tok-c") [] c refl (tt, tt) in
    let (t2, e2, s2) = claim-Sound exec src spec.string (codes "tok-s") t1 s refl s1 in
    let (t3, e3, s3) = claim-Sound exec src spec.keyword (codes "tok-k") t2 k refl s2 in
    let (t4, e4, s4) = claim-Sound exec src spec.number (codes "tok-n") t3 n refl s3 in
    (t4, rw (e1, e2, e3) e4, s4)

-- The engine's matches of a language's patterns, where the language has patterns.
unfoldable pub Searches : Exec → (src : Text) → Option Spec → Type 0
unfolding FindsAny
Searches exec src none = Unit {0}
Searches exec src (some spec) =
    FindsAny exec src spec.comment
    × FindsAny exec src spec.string
    × FindsAny exec src spec.keyword
    × FindsAny exec src spec.number

highlight_with-content :
    (exec : Exec) (src : Text) (spec : Option Spec)
    → Searches exec src spec
    → (html : Text) × (highlight_with exec src spec ≡ some html) × (content html ≡ src)
unfolding highlight_with Searches
highlight_with-content exec src none found = (esc src, refl, content-esc_all src)
highlight_with-content exec src (some spec) (c, s, k, n) =
    let (ts, collected, sound) = collect-Sound exec src spec c s k n in
    (
      render src 0 (sort ts),
      rw collected refl,
      content-render src 0 (sort ts) (sort-Chain ts sound),
    )

-- For every text and language, where each match of the language's patterns is not empty and lies
-- in the text at or behind the start of the search, highlighting ends, and the page shows exactly the
-- text: without the tags and with the entities read back the HTML is the source.
pub highlight-content :
    (exec : Exec) (src lang : Text)
    → Searches exec src (lookup lang langs)
    → (html : Text) × (highlight exec src lang ≡ some html) × (content html ≡ src)
unfolding highlight
highlight-content exec src lang found = highlight_with-content exec src (lookup lang langs) found
