-- ===== src/Toml/Document/LineEnds.antt =====
-- frontend/js/toml.js: line ends.
use orbital_viewer.Toml.Document.{lines, normalize, parse_toml}
use orbital_viewer.Base.{
  ℕ, ◌≡◌, refl, sym, ap, ◌∙◌, inl, inr, Bool, true, false, not, [], ◌∷◌, arith, ◌==◌, if◌then◌else◌,
  ==_iff, Bool-cases, and-true, every, Text,
}

-- The text with `\r\n` for each `\n`.
unfoldable pub to_crlf : Text → Text
to_crlf [] = []
to_crlf (c ∷ s) = if c == b'\n' then b'\r' ∷ b'\n' ∷ to_crlf s else c ∷ to_crlf s

-- No carriage return.
abbrev pub lacks_cr : Text → Bool
lacks_cr s = every (λ c. not (c == b'\r')) s

normalize-same : (s : Text) → lacks_cr s ≡ true → normalize s ≡ s
unfolding normalize
normalize-same [] h = refl
normalize-same (c ∷ []) h = refl
normalize-same (c ∷ d ∷ s) h = ground (arith, normalize-same (d ∷ s))

normalize-plain : (c : ℕ) (s : Text) → (c == b'\r') ≡ false → normalize (c ∷ s) ≡ c ∷ normalize s
unfolding normalize
normalize-plain c [] h = refl
normalize-plain c (d ∷ s) h = ground (arith, h)

normalize-crlf : (s : Text) → normalize (b'\r' ∷ b'\n' ∷ s) ≡ b'\n' ∷ normalize s
unfolding normalize
normalize-crlf s = normalize-plain b'\n' s refl

normalize-to_crlf : (s : Text) → lacks_cr s ≡ true → normalize (to_crlf s) ≡ s
unfolding to_crlf
normalize-to_crlf [] h = normalize-same [] h
normalize-to_crlf (c ∷ s) h =
    let (plain, rest) = and-true (not (c == b'\r')) (lacks_cr s) h in
    elim (Bool-cases (c == b'\n')) [
      | inl p ↦ rw p (
          normalize-crlf (to_crlf s)
          ∙ ap (◌∷◌ b'\n') (normalize-to_crlf s rest)
          ∙ ap (λ (d : ℕ). d ∷ s) (sym ((==_iff c b'\n').0 p)))
      | inr p ↦ rw p (
          normalize-plain c (to_crlf s) (ground (arith, plain))
          ∙ ap (◌∷◌ c) (normalize-to_crlf s rest))
    ]

-- A text without carriage returns, written with `\r\n` at its line ends, parses to the same result,
-- the line that an error names included.
pub parse_toml-to_crlf :
    (text : Text) → lacks_cr text ≡ true → parse_toml (to_crlf text) ≡ parse_toml text
unfolding parse_toml lines
parse_toml-to_crlf text h = rw (normalize-to_crlf text h, normalize-same text h) refl
