-- ===== src/Toml/Document.antt =====
-- frontend/js/toml.js: parseToml. The state of the loop is the table name and the map of values; the
-- map is a list of pairs in insertion order.
pub mod Lines
pub mod Keys
pub mod LineEnds
use orbital_viewer.Base.{
  ℕ, zero, suc, ◌+◌, ◌-◌, ◌*◌, ◌/◌, ◌%◌, ◌^◌, ◌≤◌, ◌<◌, min, max, ◌≡◌, refl, sym, ap, ◌∙◌, subst,
  fun_ext, ◌≡⟨◌⟩◌, ◌∎, ◌≢◌, ◌↔◌, ◌⊎◌, inl, inr, Bool, true, false, not, ◌&&◌, ◌||◌, Option, none,
  some, List, [], ◌∷◌, ◌++◌, map, append_assoc, append-nil, arith, ltb, leb, ◌==◌, if◌then◌else◌,
  ltb→lt, lt→ltb, leb→le, ==_iff, tests, Bool-cases, Option-cases, and-true, length, take,
  get_elem?, every, keep, length-append, length-take, length-map, All, All-append, Text, codes,
  ◌===◌, ===_iff, ===_self, lookup, has,
}
use orbital_viewer.Base.Outcome.{Outcome, ok, err, ◌>>=◌, ◌>>◌}
use orbital_viewer.Toml.Scalar.{parse_scalar}
use orbital_viewer.Toml.Scan.{
  Reason, missing_bracket, empty_table, header_tail, expected_key, dotted_key, array_value,
  single_quoted, value_tail, invalid_table, missing_equals, missing_value, duplicate_key,
  is_bare_key_char, is_space, skip_space, starts_comment, only_trailing, parse_quoted_string, span,
  break_at,
}
use orbital_viewer.Value.{Value, str}

pub record Doc : Type 0 where
  pub table : Text
  pub values : List (Text × Value)

-- `Error("line N: …")`
pub record Failure : Type 0 where
  pub line : ℕ
  pub reason : Reason

abbrev guard : Bool → Reason → Outcome Reason (Unit {0})
guard true why = ok tt
guard false why = err why

abbrev is_empty : Text → Bool
is_empty [] = true
is_empty (_ ∷ _) = false

-- A table header, with what stands before the `]` and behind it.
finish_header : Doc → Option (Text × Text) → Outcome Reason Doc
finish_header doc none = err missing_bracket
finish_header doc (some (name, rest)) = do
  guard (not (is_empty name)) empty_table
  guard (every is_bare_key_char name) (invalid_table name)
  guard (only_trailing rest) header_tail
  ok (record doc { table = name })

-- Behind the `[`.
parse_header : Doc → Text → Outcome Reason Doc
unfolding finish_header
parse_header doc s = finish_header doc (break_at b']' s)

-- The `try` block: the value and the rest of the line.
parse_value : Text → Outcome Reason (Value × Text)
parse_value [] = err value_tail
parse_value (c ∷ s) =
    let token = span (λ d. not (is_space d) && not (d == b'#')) (c ∷ s) in
    if c == b'"'
    then parse_quoted_string s >>= (λ p. ok (str p.0, p.1))
    else if c == b'[' || c == b'{'
    then err array_value
    else if c == b'\''
    then err single_quoted
    else parse_scalar token.0 >>= (λ v. ok (v, token.1))

unfoldable pub full_key : (table key : Text) → Text
full_key table key = if is_empty table then key else table ++ (b'.' ∷ key)

store : Doc → Text → Value → Outcome Reason Doc
unfolding full_key
store doc key value =
    let full = full_key doc.table key in
    if has full doc.values
    then err (duplicate_key full)
    else ok (record doc { values = doc.values ++ ((full, value) ∷ []) })

-- Behind the `=` and its spaces.
assign : Doc → Text → Text → Outcome Reason Doc
unfolding store parse_value
assign doc key s =
    if starts_comment s
    then err (missing_value key)
    else parse_value s >>= (λ p. guard (only_trailing p.1) value_tail >> store doc key p.0)

-- Behind the key and its spaces.
expect_equals : Doc → Text → Text → Outcome Reason Doc
unfolding assign
expect_equals doc key [] = err (missing_equals key)
expect_equals doc key (c ∷ s) =
    if c == b'='
    then assign doc key (skip_space s)
    else if c == b'.'
    then err dotted_key
    else err (missing_equals key)

parse_entry : Doc → Text → Outcome Reason Doc
unfolding expect_equals
parse_entry doc s =
    let (key, rest) = span is_bare_key_char s in
    if is_empty key then err expected_key else expect_equals doc key (skip_space rest)

-- One round of the loop behind the leading spaces.
dispatch : Doc → Text → Outcome Reason Doc
unfolding parse_header parse_entry
dispatch doc [] = ok doc
dispatch doc (c ∷ s) =
    if c == b'#' then ok doc else if c == b'[' then parse_header doc s else parse_entry doc (c ∷ s)

-- `rawLine.endsWith('\r') ? rawLine.slice(0, -1) : rawLine`
unfoldable pub strip_cr : Text → Text
strip_cr [] = []
strip_cr (c ∷ []) = if c == b'\r' then [] else c ∷ []
strip_cr (c ∷ d ∷ s) = c ∷ strip_cr (d ∷ s)

unfoldable pub parse_line : Doc → Text → Outcome Reason Doc
unfolding dispatch
parse_line doc raw = dispatch doc (skip_space (strip_cr raw))

abbrev pub at_line {ℓ} : {A : Type ℓ} → ℕ → Outcome Reason A → Outcome Failure A
at_line ln (ok a) = ok a
at_line ln (err why) = err (record { line = ln; reason = why })

-- The loop; `ln` is the number of lines already read.
unfoldable pub parse_lines : ℕ → Doc → List Text → Outcome Failure Doc
parse_lines ln doc [] = ok doc
parse_lines ln doc (l ∷ ls) =
    at_line (ln + 1) (parse_line doc l) >>= (λ d. parse_lines (ln + 1) d ls)

-- `text.replace(/\r\n/g, '\n')`
unfoldable pub normalize : Text → Text
normalize [] = []
normalize (c ∷ []) = c ∷ []
normalize (c ∷ d ∷ s) =
    let rest = normalize (d ∷ s) in if c == b'\r' && d == b'\n' then rest else c ∷ rest

-- `split('\n')`; a text has at least one line
split_from : Text → Text → List Text
split_from cur [] = cur ∷ []
split_from cur (c ∷ s) =
    let closed = split_from [] s in
    let longer = split_from (cur ++ c ∷ []) s in if c == b'\n' then cur ∷ closed else longer

-- The last line is dropped if it is empty behind a line break.
drop_last_empty : List Text → List Text
drop_last_empty [] = []
drop_last_empty (l ∷ []) = l ∷ []
drop_last_empty (l ∷ [] ∷ []) = l ∷ []
drop_last_empty (l ∷ m ∷ ls) = l ∷ drop_last_empty (m ∷ ls)

unfoldable pub lines : Text → List Text
unfolding split_from drop_last_empty
lines text = drop_last_empty (split_from [] (normalize text))

abbrev pub empty_doc : Doc
empty_doc = record { table = []; values = [] }

unfoldable pub parse_toml : Text → Outcome Failure (List (Text × Value))
parse_toml text = parse_lines 0 empty_doc (lines text) >>= (λ d. ok d.values)
