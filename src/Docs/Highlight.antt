-- ===== src/Docs/Highlight.antt =====
-- The syntax highlighter of the documentation site (highlight of docs/site/assets/docs.js).
-- The regular expression engine is a parameter: for a pattern, a text and a start it gives the
-- first match at or behind the start, as its first index and the index behind it.
pub mod Escape
pub mod Tokens
pub mod Content
use orbital_viewer.Docs.Langs.{Spec, Pattern, langs}
use orbital_viewer.Base.{
  ℕ, zero, suc, ◌+◌, ◌-◌, ◌*◌, ◌/◌, ◌%◌, ◌^◌, ◌≤◌, ◌<◌, min, max, ◌≡◌, refl, sym, ap, ◌∙◌, subst,
  fun_ext, ◌≡⟨◌⟩◌, ◌∎, ◌≢◌, ◌↔◌, ◌⊎◌, inl, inr, Bool, true, false, not, ◌&&◌, ◌||◌, Option, none,
  some, List, [], ◌∷◌, ◌++◌, map, append_assoc, append-nil, arith, ltb, leb, ◌==◌, if◌then◌else◌,
  ltb→lt, lt→ltb, leb→le, ==_iff, tests, Bool-cases, Option-cases, and-true, length, take,
  get_elem?, every, keep, length-append, length-take, length-map, All, All-append, Text, codes,
  ◌===◌, ===_iff, ===_self, lookup, has,
}

abbrev Exec : Type 0
Exec = Pattern → (src : Text) → (last_index : ℕ) → Option (ℕ × ℕ)

infixl 5 ◌>>=◌
abbrev pub ◌>>=◌ {ℓ κ} : {A : Type ℓ} {B : Type κ} → Option A → (A → Option B) → Option B
none >>= next = none
some value >>= next = next value

pub record Token : Type 0 where
  pub start : ℕ
  pub end : ℕ
  pub cls : Text

abbrev pub drop : ℕ → Text → Text
drop zero xs = xs
drop (suc n) [] = []
drop (suc n) (x ∷ xs) = drop n xs

-- `src.slice(a, b)`
unfoldable pub slice : Text → (a b : ℕ) → Text
slice src a b = take (b - a) (drop a src)

-- `s.replace(/c/g, word)`
unfoldable pub replace_all : (c : ℕ) (word : Text) → Text → Text
replace_all c word [] = []
replace_all c word (x ∷ s) =
    if x == c then word ++ replace_all c word s else x ∷ replace_all c word s

unfoldable pub esc : Text → Text
unfolding replace_all
esc s =
    replace_all 62 (codes "&gt;") (replace_all 60 (codes "&lt;") (replace_all 38 (codes "&amp;") s))

-- `s < t.end && e > t.start`
unfoldable pub clashes : (s e : ℕ) → Token → Bool
clashes s e t = ltb s t.end && ltb t.start e

abbrev some_clash : (s e : ℕ) → List Token → Bool
some_clash s e [] = false
some_clash s e (t ∷ ts) = clashes s e t || some_clash s e ts

-- The tokens behind one match.
unfoldable pub push : (s e : ℕ) (cls : Text) → List Token → List Token
unfolding clashes
push s e cls tokens =
    if some_clash s e tokens
    then tokens
    else tokens ++ (record { start = s; end = e; cls = cls } ∷ [])

-- One turn of the loop of `claim`, with the result of `exec` and what the next turns do. An empty
-- match leaves `lastIndex` at its start, so it is moved on by one.
unfoldable pub claim_step :
    (cls : Text)
    → (rest : ℕ → List Token → Option (List Token)) → List Token
    → Option (ℕ × ℕ)
    → Option (List Token)
unfolding push
claim_step cls rest tokens none = some tokens
claim_step cls rest tokens (some (s, e)) = rest (if s == e then e + 1 else e) (push s e cls tokens)

-- The loop of `claim`. It gives `none` only where the fuel runs out.
unfoldable pub claim_from :
    Exec → Pattern → (cls src : Text) → (fuel last_index : ℕ) → List Token → Option (List Token)
unfolding claim_step
claim_from exec re cls src zero last tokens = none
claim_from exec re cls src (suc fuel) last tokens =
    claim_step cls (claim_from exec re cls src fuel) tokens (exec re src last)

unfoldable pub claim :
    Exec → (src : Text) → Option Pattern → (cls : Text) → List Token → Option (List Token)
unfolding claim_from
claim exec src none cls tokens = some tokens
claim exec src (some re) cls tokens = claim_from exec re cls src (length src + 2) 0 tokens

-- `tokens.sort((a, b) => a.start - b.start)`, which is stable
unfoldable pub insert : Token → List Token → List Token
insert t [] = t ∷ []
insert t (u ∷ us) = if leb t.start u.start then t ∷ u ∷ us else u ∷ insert t us

unfoldable pub sort : List Token → List Token
unfolding insert
sort [] = []
sort (t ∷ ts) = insert t (sort ts)

-- The tokens in their spans and the text between them, from `pos` on.
unfoldable pub render : (src : Text) → (pos : ℕ) → List Token → Text
unfolding esc slice
render src pos [] = esc (drop pos src)
render src pos (t ∷ ts) =
    let tagged = esc (slice src t.start t.end) ++ (codes "</span>" ++ render src t.end ts) in
    esc (slice src pos t.start) ++ (codes "<span class=\"" ++ (t.cls ++ (codes "\">" ++ tagged)))

unfoldable pub collect : Exec → (src : Text) → Spec → Option (List Token)
unfolding claim
collect exec src spec = do
  comments ← claim exec src spec.comment (codes "tok-c") []
  strings ← claim exec src spec.string (codes "tok-s") comments
  keywords ← claim exec src spec.keyword (codes "tok-k") strings
  claim exec src spec.number (codes "tok-n") keywords

unfoldable pub highlight_with : Exec → (src : Text) → Option Spec → Option Text
unfolding collect sort render esc
highlight_with exec src none = some (esc src)
highlight_with exec src (some spec) = do
  tokens ← collect exec src spec
  some (render src 0 (sort tokens))

-- `highlight(src, lang)`; `none` is a loop that does not end.
unfoldable pub highlight : Exec → (src lang : Text) → Option Text
unfolding highlight_with
highlight exec src lang = highlight_with exec src (lookup lang langs)
