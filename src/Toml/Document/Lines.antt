-- ===== src/Toml/Document/Lines.antt =====
-- frontend/js/toml.js: the line that an error names.
use orbital_viewer.Base.Outcome.{>>=-eq-err, err-injective, Outcome-cases, ok, err}
use orbital_viewer.Toml.Scan.{Reason}
use orbital_viewer.Toml.Document.{
  lines, empty_doc, parse_line, Failure, parse_toml, Doc, parse_lines,
}
use orbital_viewer.Base.{
  ℕ, ◌+◌, ◌≡◌, refl, sym, ap, ◌∙◌, inl, inr, List, [], ◌∷◌, ◌++◌, arith, length, Text,
}

-- The line that stopped the parser: `before` parses, to `doc`, and `line` fails.
pub record IsStop (ln : ℕ) (start : Doc) (ls : List Text) (f : Failure) : Type 0 where
  pub before : List Text
  pub line : Text
  pub after : List Text
  pub doc : Doc
  pub split : ls ≡ before ++ line ∷ after
  pub parses : parse_lines ln start before ≡ ok doc
  pub fails : parse_line doc line ≡ err f.reason
  pub number : f.line ≡ ln + length before + 1

parse_lines-cons :
    (ln : ℕ) (start d : Doc) (l : Text) (ls : List Text)
    → parse_line start l ≡ ok d
    → parse_lines ln start (l ∷ ls) ≡ parse_lines (ln + 1) d ls
unfolding parse_lines
parse_lines-cons ln start d l ls p = rw (p, parse_lines) refl

parse_lines-stop :
    (ln : ℕ) (start : Doc) (l : Text) (ls : List Text) (why : Reason)
    → parse_line start l ≡ err why
    → parse_lines ln start (l ∷ ls) ≡ err (record { line = ln + 1; reason = why })
unfolding parse_lines
parse_lines-stop ln start l ls why p = rw (p, parse_lines) refl

parse_lines-IsStop :
    (ln : ℕ) (start : Doc) (ls : List Text) (f : Failure)
    → parse_lines ln start ls ≡ err f
    → IsStop ln start ls f
unfolding parse_lines
parse_lines-IsStop ln start [] f h = absurd (cc h)
parse_lines-IsStop ln start (l ∷ ls) f h = elim (Outcome-cases (parse_line start l)) [
  | inl (d, p) ↦
      let s = parse_lines-IsStop (ln + 1) d ls f (sym (parse_lines-cons ln start d l ls p) ∙ h) in
      record {
        before = l ∷ s.before;
        line = s.line;
        after = s.after;
        doc = s.doc;
        split = ap (◌∷◌ l) s.split;
        parses = parse_lines-cons ln start d l s.before p ∙ s.parses;
        fails = s.fails;
        number = omega (arith, s.number);
      }
  | inr (why, p) ↦
      let same = err-injective (sym (parse_lines-stop ln start l ls why p) ∙ h) in
      record {
        before = [];
        line = l;
        after = ls;
        doc = start;
        split = refl;
        parses = refl;
        fails = p ∙ ap (λ (g : Failure). err g.reason) same;
        number = sym (ap (λ (g : Failure). g.line) same) ∙ omega arith;
      }
]

-- When a text does not parse, the error names the first line that fails: the lines before it parse,
-- its number is one more than how many they are, and the reason is that line's.
pub parse_toml-IsStop :
    (text : Text) (f : Failure) → parse_toml text ≡ err f → IsStop 0 empty_doc (lines text) f
unfolding parse_toml
parse_toml-IsStop text f h = elim (>>=-eq-err (parse_lines 0 empty_doc (lines text)) _ h) [
  | inl p ↦ parse_lines-IsStop 0 empty_doc (lines text) f p
  | inr (d, _, q) ↦ absurd (cc q)
]
