-- ===== src/Tests/SettingsWitnesses.antt =====
-- Witnesses of the theorems on the settings, config.toml and its parser.
use mathlib.Core.Bool.{false≢true}
use orbital_viewer.Toml.Scalar.{parse_scalar, number}
use orbital_viewer.Settings.Listeners.{received-update, subscribed, received}
use orbital_viewer.Toml.Scan.{
  is_bare_key_char, is_digit, parse_quoted_string, break_at, span, only_trailing, skip_space,
  duplicate_key,
}
use orbital_viewer.SiteConfig.Laws.{load_text-lookup, chosen}
use orbital_viewer.Base.Outcome.{err, ok}
use orbital_viewer.Tests.Samples.{a_patch, no_json, working, conversions}
use orbital_viewer.Settings.Persistence.{encode, create_settings-update, encode_view_mode, IsJson}
use orbital_viewer.Toml.Document.Keys.{parse_toml-Distinct, is_path_char, Distinct}
use orbital_viewer.Toml.Document.Lines.{parse_toml-IsStop, IsStop}
use orbital_viewer.Num.{to_double, whole, is_safe_integer}
use orbital_viewer.Settings.Patch.{clamp_int, sat, orbit, ViewMode}
use orbital_viewer.SiteConfig.{load_text}
use orbital_viewer.SiteConfig.Keys.{
  show_labels, trail_seconds, show_trails, host, Key, toml_key, kind, port, result_key,
}
use orbital_viewer.Settings.Bounds.{create_settings-IsValidStore, clamp_int_bounds, IsValidStore}
use orbital_viewer.Settings.Sessions.{
  reset_defaults-run, untouched, run-create_settings-IsValidStore, do_reset, do_update,
  do_subscribe, run, Action,
}
use orbital_viewer.Settings.Store.{create_settings, reset_defaults, Json, update, Store}
use orbital_viewer.Toml.Document.{
  normalize, strip_cr, parse_line, lines, empty_doc, parse_lines, parse_toml,
}
use orbital_viewer.Value.{undefined, obj, num, of_fields, str, bool, Value}
use orbital_viewer.Base.{
  ℕ, ◌≤◌, ◌≡◌, refl, ◌≢◌, Bool, true, false, Option, none, some, List, [], ◌∷◌, ◌++◌, arith, ◌==◌,
  if◌then◌else◌, every, All, Text, codes, ◌===◌, ===_iff, lookup, has,
}

clamp_int_bounds_example :
    (1 ≤ clamp_int conversions (num (whole 70_000)) 1 65_535 8765)
    × (clamp_int conversions (num (whole 70_000)) 1 65_535 8765 ≤ 65_535)
clamp_int_bounds_example =
    clamp_int_bounds conversions (num (whole 70_000)) 1 65_535 8765 (omega arith) (omega arith)
      (omega arith)

abbrev calls : List Action
calls = do_subscribe (some 1) ∷ do_update (obj a_patch) ∷ do_reset ∷ []

run-create_settings-IsValidStore_example :
    IsValidStore conversions no_json
      (run conversions no_json (create_settings conversions no_json working undefined) calls)
run-create_settings-IsValidStore_example =
    run-create_settings-IsValidStore conversions no_json working undefined calls

reset_defaults-run_example :
    (reset_defaults conversions no_json (
      run conversions no_json
        (create_settings conversions no_json working undefined)
        calls)).current
    ≡ (create_settings conversions no_json (untouched conversions no_json) undefined).current
reset_defaults-run_example = reset_defaults-run conversions no_json working undefined calls

received-update_example :
    let s = run conversions no_json (create_settings conversions no_json working undefined) calls in
    let t = update conversions no_json s (obj a_patch) in
    received 1 t.calls
    ≡ received 1 s.calls ++ (if subscribed 1 false calls then t.current ∷ [] else [])
received-update_example = received-update conversions no_json 1 working undefined calls a_patch

-- A codec of settings: one number for each flag, and the host at the end.
abbrev bit : Bool → ℕ
bit true = 1
bit false = 0

abbrev mode_bit : ViewMode → ℕ
mode_bit orbit = 0
mode_bit sat = 1

abbrev of_bit : ℕ → Value
of_bit n = bool (n == 1)

abbrev of_mode_bit : ℕ → Value
of_mode_bit n = if n == 1 then str (codes "sat") else str (codes "orbit")

abbrev decode : Text → Option Value
decode (tr ∷ ts ∷ la ∷ sk ∷ vm ∷ d ∷ s ∷ c ∷ sa ∷ g ∷ u ∷ p ∷ name) =
    let categories = of_fields (
      (codes "debris", of_bit d)
      ∷ (codes "star", of_bit s)
      ∷ (codes "comet", of_bit c)
      ∷ (codes "satellite", of_bit sa)
      ∷ (codes "groundHot", of_bit g)
      ∷ (codes "unknown", of_bit u)
      ∷ []) in
    some (
      obj (
        of_fields (
          (codes "showTrails", of_bit tr)
          ∷ (codes "trailSeconds", num (whole ts))
          ∷ (codes "showLabels", of_bit la)
          ∷ (codes "showSky", of_bit sk)
          ∷ (codes "viewMode", of_mode_bit vm)
          ∷ (codes "categories", obj categories)
          ∷ (codes "host", str name)
          ∷ (codes "port", num (whole p))
          ∷ [])))
decode _ = none

abbrev codec : Json
codec = record {
  parse = decode;
  stringify = λ s.
      let k = s.categories in
      bit s.show_trails
      ∷ s.trail_seconds
      ∷ bit s.show_labels
      ∷ bit s.show_sky
      ∷ mode_bit s.view_mode
      ∷ bit k.debris
      ∷ bit k.star
      ∷ bit k.comet
      ∷ bit k.satellite
      ∷ bit k.ground_hot
      ∷ bit k.unknown
      ∷ s.port
      ∷ s.host;
}

of_bit-bit : (b : Bool) → of_bit (bit b) ≡ bool b
of_bit-bit true = refl
of_bit-bit false = refl

of_mode_bit-mode_bit : (m : ViewMode) → of_mode_bit (mode_bit m) ≡ encode_view_mode m
of_mode_bit-mode_bit orbit = refl
of_mode_bit-mode_bit sat = refl

codec-IsJson : IsJson codec
unfolding encode
codec-IsJson = record {
  parse-stringify = λ s.
      rw
        (
          of_bit-bit s.show_trails,
          of_bit-bit s.show_labels,
          of_bit-bit s.show_sky,
          of_mode_bit-mode_bit s.view_mode,
          of_bit-bit s.categories.debris,
          of_bit-bit s.categories.star,
          of_bit-bit s.categories.comet,
          of_bit-bit s.categories.satellite,
          of_bit-bit s.categories.ground_hot,
          of_bit-bit s.categories.unknown,
        )
        refl;
  stringify-ne-nil = λ s e. absurd (cc e);
}

abbrev first_visit : Store
first_visit = create_settings conversions codec working undefined

create_settings-update_example :
    let t = update conversions codec first_visit (obj a_patch) in
    (create_settings conversions codec t.storage undefined).current ≡ t.current
unfolding create_settings
create_settings-update_example =
    create_settings-update conversions codec first_visit a_patch undefined codec-IsJson
      (create_settings-IsValidStore conversions codec working undefined) refl refl

abbrev bad_text : Text
bad_text = codes "a = 1\na = 2\n"

toml : Unit {0}
unfolding parse_toml parse_lines parse_line lines normalize strip_cr skip_space only_trailing span
    break_at parse_quoted_string number parse_scalar is_digit is_bare_key_char has ◌===◌ to_double
toml = tt

bad_text_fails : parse_toml bad_text ≡ err (record { line = 2; reason = duplicate_key (codes "a") })
unfolding toml is_safe_integer
bad_text_fails = refl

parse_toml-IsStop_example :
    IsStop 0 empty_doc (lines bad_text) (record { line = 2; reason = duplicate_key (codes "a") })
parse_toml-IsStop_example =
    parse_toml-IsStop bad_text (record { line = 2; reason = duplicate_key (codes "a") })
      bad_text_fails

abbrev good_text : Text
good_text = codes "[websocket]\nport = 9000\n"

abbrev good_entries : List (Text × Value)
good_entries = (codes "websocket.port", num (whole 9000)) ∷ []

good_text_parses : parse_toml good_text ≡ ok good_entries
unfolding toml is_safe_integer
good_text_parses = refl

parse_toml-Distinct_example :
    Distinct good_entries × All (λ e. every is_path_char e.0 ≡ true) good_entries
parse_toml-Distinct_example = parse_toml-Distinct good_text good_text_parses

load_text-lookup_example :
    lookup (result_key port) (load_text good_text).config
    ≡ chosen (kind port) (toml_key port) none good_entries
load_text-lookup_example = load_text-lookup good_text port good_text_parses

not_show_sky : (key : Key) → result_key key ≢ codes "showSky"
unfolding ◌===◌
not_show_sky host e = absurd (false≢true ((===_iff _ (codes "showSky")).1 e))
not_show_sky port e = absurd (false≢true ((===_iff _ (codes "showSky")).1 e))
not_show_sky show_trails e = absurd (false≢true ((===_iff _ (codes "showSky")).1 e))
not_show_sky trail_seconds e = absurd (false≢true ((===_iff _ (codes "showSky")).1 e))
not_show_sky show_labels e = absurd (false≢true ((===_iff _ (codes "showSky")).1 e))
