-- ===== src/Toml/Scan.antt =====
-- frontend/js/toml.js: character tests, the scanning helpers and parseQuotedString.
use orbital_viewer.Base.{
  ℕ, Bool, true, ◌&&◌, ◌||◌, Option, none, some, [], ◌∷◌, ◌++◌, leb, ◌==◌, if◌then◌else◌, Text,
}
use orbital_viewer.Base.Outcome.{Outcome, ok, err}

-- The messages of the parser's errors.
pub data Reason : Type 0 where
  unterminated_escape unterminated_string misplaced_sign second_point bare_point missing_token :
      Reason
  unsupported_escape : ℕ → Reason
  unsupported_value invalid_float invalid_integer : Text → Reason
  missing_bracket empty_table header_tail expected_key dotted_key array_value single_quoted : Reason
  value_tail : Reason
  invalid_table missing_equals missing_value duplicate_key : Text → Reason

abbrev pub within : ℕ → ℕ → ℕ → Bool
within lo hi c = leb lo c && leb c hi

unfoldable pub is_digit : ℕ → Bool
is_digit c = within b'0' b'9' c

-- `/[A-Za-z0-9_-]/`
unfoldable pub is_bare_key_char : ℕ → Bool
is_bare_key_char c =
    within b'A' b'Z' c || within b'a' b'z' c || within b'0' b'9' c || c == b'_' || c == b'-'

unfoldable pub is_space : ℕ → Bool
is_space c = c == b' ' || c == b'\t'

unfoldable pub skip_space : Text → Text
unfolding is_space
skip_space [] = []
skip_space (c ∷ s) = if is_space c then skip_space s else c ∷ s

abbrev pub starts_comment : Text → Bool
starts_comment [] = true
starts_comment (c ∷ _) = c == b'#'

unfoldable pub only_trailing : Text → Bool
unfolding skip_space
only_trailing s = starts_comment (skip_space s)

-- The `switch` on the character behind a backslash.
unfoldable pub unescape : ℕ → Option ℕ
unescape e =
    if e == b'"'
    then some b'"'
    else if e == b'\\'
    then some b'\\'
    else if e == b'n'
    then some b'\n'
    else if e == b't'
    then some b'\t'
    else if e == b'r'
    then some b'\r'
    else none

-- The loop of parseQuotedString, behind the opening quote: the string and the rest of the line.
unfoldable pub quoted : (out s : Text) → Outcome Reason (Text × Text)
unfolding unescape
quoted out [] = err unterminated_string
quoted out (c ∷ []) =
    if c == b'"'
    then ok (out, [])
    else if c == b'\\'
    then err unterminated_escape
    else err unterminated_string
quoted out (c ∷ e ∷ s) =
    let plain = quoted (out ++ c ∷ []) (e ∷ s) in
    let escaped : Outcome Reason (Text × Text) = elim (unescape e) [
      | none ↦ err (unsupported_escape e)
      | some d ↦ quoted (out ++ d ∷ []) s
    ] in
    if c == b'"' then ok (out, e ∷ s) else if c == b'\\' then escaped else plain

unfoldable pub parse_quoted_string : Text → Outcome Reason (Text × Text)
unfolding quoted
parse_quoted_string s = quoted [] s

-- `while (i < s.length && p(s[i])) ++i`: what the loop passes, and the rest.
unfoldable pub span : (ℕ → Bool) → Text → Text × Text
span p [] = ([], [])
span p (c ∷ s) = let (front, rest) = span p s in if p c then (c ∷ front, rest) else ([], c ∷ s)

-- `indexOf(stop)`: what stands before the first `stop`, and behind it.
unfoldable pub break_at : ℕ → Text → Option (Text × Text)
break_at stop [] = none
break_at stop (c ∷ s) =
    if c == stop
    then some ([], s)
    else elim (break_at stop s) [ none ↦ none | some (front, rest) ↦ some (c ∷ front, rest) ]
