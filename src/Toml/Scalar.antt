-- ===== src/Toml/Scalar.antt =====
-- frontend/js/toml.js: parseScalar, for booleans and numbers.
use orbital_viewer.Base.{
  ℕ, ◌+◌, ◌-◌, ◌*◌, Bool, true, false, not, ◌&&◌, ◌||◌, Option, none, some, [], ◌∷◌, ◌==◌,
  if◌then◌else◌, Text, codes, ◌===◌,
}
use orbital_viewer.Base.Outcome.{Outcome, ok, err, ◌>>=◌}
use orbital_viewer.Num.{Num, is_finite, is_safe_integer, to_double}
use orbital_viewer.Toml.Scan.{
  Reason, misplaced_sign, second_point, bare_point, missing_token, unsupported_value, invalid_float,
  invalid_integer, is_digit,
}
use orbital_viewer.Value.{Value, bool, num}

abbrev is_digit? : Option ℕ → Bool
is_digit? none = false
is_digit? (some c) = is_digit c

abbrev head? : Text → Option ℕ
head? [] = none
head? (c ∷ _) = some c

-- What the loop has seen of a token.
pub record Seen : Type 0 where
  pub dot : Bool
  pub digit : Bool

-- One round of the loop, at character `c` between `prev` and `next`; `prev` is none at index 0.
check_char : (token : Text) (prev next : Option ℕ) → ℕ → Seen → Outcome Reason Seen
check_char token prev next c seen =
    if c == b'+' || c == b'-'
    then elim prev [ none ↦ ok seen | some _ ↦ err misplaced_sign ]
    else if c == b'.'
    then if seen.dot
      then err second_point
      else if is_digit? prev && is_digit? next
      then ok (record seen { dot = true })
      else err bare_point
    else if is_digit c
    then ok (record seen { digit = true })
    else err (unsupported_value token)

check_chars : (token : Text) (prev : Option ℕ) → Text → Seen → Outcome Reason Seen
check_chars token prev [] seen = ok seen
check_chars token prev (c ∷ s) seen = do
  next ← check_char token prev (head? s) c seen
  check_chars token (some c) s next

-- A decimal numeral that passed the loop, as its digits without the point and the number of digits
-- behind the point.
digits_value : ℕ → Text → ℕ
digits_value acc [] = acc
digits_value acc (c ∷ s) = digits_value (if is_digit c then 10 * acc + (c - b'0') else acc) s

decimals : Bool → Text → ℕ
decimals behind [] = 0
decimals behind (c ∷ s) = (if behind && is_digit c then 1 else 0) + decimals (behind || c == b'.') s

is_negative : Text → Bool
is_negative [] = false
is_negative (c ∷ _) = c == b'-'

-- `Number(token)`
unfoldable pub number : Text → Num
unfolding digits_value decimals is_negative
number token = to_double (is_negative token) (digits_value 0 token) (decimals false token)

-- The tests behind the loop.
finish_number : (token : Text) → Seen → Outcome Reason Value
finish_number token seen =
    let v = number token in
    if not seen.digit
    then err (unsupported_value token)
    else if seen.dot
    then (if is_finite v then ok (num v) else err (invalid_float token))
    else if is_safe_integer v
    then ok (num v)
    else err (invalid_integer token)

unfoldable pub scan_number : Text → Outcome Reason Value
unfolding check_chars check_char finish_number
scan_number token =
    check_chars token none token (record { dot = false; digit = false }) >>= finish_number token

unfoldable pub parse_scalar : Text → Outcome Reason Value
unfolding scan_number
parse_scalar [] = err missing_token
parse_scalar (c ∷ s) =
    let token = c ∷ s in
    if token === codes "true"
    then ok (bool true)
    else if token === codes "false"
    then ok (bool false)
    else scan_number token
