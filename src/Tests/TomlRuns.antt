-- ===== src/Tests/TomlRuns.antt =====
-- Runs of the TOML parser.
use orbital_viewer.Base.{◌≡◌, refl, true, [], ◌∷◌, codes, ◌===◌, has}
use orbital_viewer.Base.Outcome.{ok, err}
use orbital_viewer.Num.{is_safe_integer, whole, to_double}
use orbital_viewer.Toml.Document.{parse_toml, parse_lines, parse_line, lines, normalize, strip_cr}
use orbital_viewer.Toml.Scan.{
  duplicate_key, dotted_key, is_digit, is_bare_key_char, skip_space, only_trailing, span, break_at,
  parse_quoted_string,
}
use orbital_viewer.Toml.Scalar.{number, parse_scalar}
use orbital_viewer.Value.{bool, num, str}

toml : Unit {0}
unfolding parse_toml parse_lines parse_line lines normalize strip_cr skip_space only_trailing span
    break_at parse_quoted_string number parse_scalar is_digit is_bare_key_char has ◌===◌ to_double
toml = tt

sample :
    parse_toml
      (codes "# c\n[websocket]\nport = 8765\r\n\thost=\"a\\tb\" # x\n[display]\nshow = true\n")
    ≡ ok (
        (codes "websocket.port", num (whole 8765))
        ∷ (codes "websocket.host", str (codes "a\tb"))
        ∷ (codes "display.show", bool true)
        ∷ [])
unfolding toml is_safe_integer
sample = refl

errors :
    (parse_toml (codes "a=1\n\na = 2")
      ≡ err (record { line = 3; reason = duplicate_key (codes "a") }))
    × (parse_toml (codes "a.b=1") ≡ err (record { line = 1; reason = dotted_key }))
unfolding toml is_safe_integer
errors = (refl, refl)
