-- ===== src/Tests/SiteWitnesses.antt =====
-- Witnesses of the theorems on the sky, the atlas and the documentation site, and on the parts that
-- have few: the list, the recovery of the connection and the line ends of a text.
use orbital_viewer.Num.Arith.{round_ratio, same_sign, sum_signed, add, fmod}
use orbital_viewer.Docs.Search.Found.{run_search-IsFound, IsFound, Shows}
use orbital_viewer.Model.Listing.{get_list_rows_lem, IsAscending}
use orbital_viewer.Model.{get_list_rows, filtered}
use orbital_viewer.Sky.Stars.Turned.{stars_ecef_into-turned, turned}
use mathlib.Core.List.{Perm}
use orbital_viewer.Atlas.{fill}
use orbital_viewer.Docs.Highlight.Content.{highlight-content, Searches}
use orbital_viewer.Sky.Angle.{wrap_deg180_lem, HalfTurn}
use orbital_viewer.Toml.Document.LineEnds.{parse_toml-to_crlf, to_crlf}
use orbital_viewer.Docs.Highlight.Escape.{content}
use orbital_viewer.Atlas.Paint.{is_integer, magnitude, icon_uv, painters, paint_atlas}
use orbital_viewer.Docs.Search.{full_index, trim, split_space, run_search, Entry}
use orbital_viewer.Sky.Catalog.{star_catalog, Star}
use orbital_viewer.Sky.Stars.{stars_ecef_into}
use orbital_viewer.Atlas.Origin.{drawn-paint_atlas, in_cells, drawn}
use orbital_viewer.Docs.Highlight.{highlight}
use orbital_viewer.Docs.Highlight.Tokens.{FindsAny, Finds}
use orbital_viewer.Num.Arith.Bounds.{Between}
use orbital_viewer.Atlas.Texture.{icon_uv-in_cell, in_cell}
use orbital_viewer.Toml.Document.{parse_toml}
use orbital_viewer.Docs.Langs.{langs, Pattern}
use orbital_viewer.Net.Message.{ObjectRow}
use orbital_viewer.Tests.ClientWitnesses.{a_model}
use orbital_viewer.Base.{
  ℕ, ◌/◌, ◌%◌, ◌≤◌, ◌<◌, ◌≡◌, refl, ap, inl, inr, true, false, not, ◌&&◌, Option, none, some, List,
  [], ◌∷◌, ◌++◌, arith, ltb, ◌==◌, if◌then◌else◌, Bool-cases, length, take, Text, codes, ◌===◌,
  lookup,
}
use orbital_viewer.Num.{lt, eq, Num, fin, whole}
use orbital_viewer.Tests.Samples.{fns}
use orbital_viewer.Sky.{wrap_deg180, gmst_rad, wrap_deg}

wrap_deg180_lem_example :
    Between (wrap_deg (fin true 725 1)) 360 × HalfTurn (wrap_deg180 (fin true 725 1))
wrap_deg180_lem_example = wrap_deg180_lem true 725 1

-- The angle just below zero is wrapped to 360 itself.
wraps_to_360 : eq (wrap_deg (fin true 1 1074)) (whole 360) ≡ true
unfolding eq wrap_deg fmod lt add sum_signed same_sign round_ratio
wraps_to_360 = refl

abbrev kept : Num → Num
kept x = x

abbrev lowered : Text → Text
lowered s = s

abbrev two_stars : List Star
two_stars = take 2 star_catalog

abbrev zeros : List Num
zeros = whole 0 ∷ whole 0 ∷ whole 0 ∷ whole 0 ∷ whole 0 ∷ whole 0 ∷ []

stars_ecef_into-turned_example :
    stars_ecef_into fns kept kept two_stars (whole 0) (zeros ++ (whole 7 ∷ []))
    ≡ (turned fns kept kept (gmst_rad fns (whole 0)) two_stars ++ (whole 7 ∷ []), 2)
unfolding star_catalog
stars_ecef_into-turned_example =
    stars_ecef_into-turned fns kept kept two_stars (whole 0) zeros (whole 7 ∷ []) refl

abbrev px : Num
px = whole 64

abbrev corner_0 : Num × Num
corner_0 = (whole 0, whole 0)

drawn-paint_atlas_example :
    drawn corner_0 [] (paint_atlas fns px ++ (fill ∷ []))
    ≡ in_cells fns corner_0 px painters ++ drawn corner_0 [] (fill ∷ [])
drawn-paint_atlas_example = drawn-paint_atlas fns corner_0 [] px (fill ∷ [])

icon_uv-in_cell_example :
    in_cell (magnitude (whole 7) % 4) (magnitude (whole 7) / 4) (icon_uv (whole 7))
    ≡ (is_integer (whole 7) && not (lt (whole 7) (whole 0)) && not (lt (whole 15) (whole 7)))
icon_uv-in_cell_example = icon_uv-in_cell (whole 7)

-- An engine that finds one match, of the second and third character.
abbrev one_match : Pattern → Text → ℕ → Option (ℕ × ℕ)
one_match re src last = if last == 0 && ltb 3 (length src) then some (1, 3) else none

one_match-Finds : (src : Text) (re : Pattern) → Finds one_match src re
unfolding Finds
one_match-Finds src re last s e h = elim (Bool-cases (last == 0 && ltb 3 (length src))) [
  | inl q ↦ placed (length src) last s e q (rw q at h)
  | inr q ↦ nothing (s, e) (rw q at h)
]
  where
    nothing : {A : Type 0} (q : ℕ × ℕ) → ◌≡◌ {A = Option (ℕ × ℕ)} none (some q) → A
    nothing q h = absurd (cc h)

    same : (p q : ℕ × ℕ) → ◌≡◌ {A = Option (ℕ × ℕ)} (some p) (some q) → p ≡ q
    same p q h = cc

    placed :
        (n last s e : ℕ)
        → (last == 0 && ltb 3 n) ≡ true
        → ◌≡◌ {A = Option (ℕ × ℕ)} (some (1, 3)) (some (s, e))
        → (last ≤ s) × (s < e) × (e ≤ n)
    placed n last s e q h =
        let start : 1 ≡ s = ap (λ (p : ℕ × ℕ). p.0) (same (1, 3) (s, e) h) in
        let end : 3 ≡ e = ap (λ (p : ℕ × ℕ). p.1) (same (1, 3) (s, e) h) in
        ground (arith, q, start, end)

csv-Searches : Searches one_match (codes "a<1>#b") (lookup (codes "csv") langs)
unfolding Searches lookup ◌===◌ FindsAny
csv-Searches = (
  one_match-Finds (codes "a<1>#b") (record { source = codes "#[^\\n]*"; multiline = false }),
  tt,
  tt,
  tt,
)

highlight-content_example :
    (html : Text) × (highlight one_match (codes "a<1>#b") (codes "csv") ≡ some html)
    × (content html ≡ codes "a<1>#b")
highlight-content_example = highlight-content one_match (codes "a<1>#b") (codes "csv") csv-Searches

run_search-IsFound_example :
    (found : List Entry) × Shows
      (codes ".")
      found
      (run_search lowered [] (codes ".") (codes " Test "))
    × IsFound lowered (split_space (lowered (trim (codes " Test ")))) (full_index []) found
unfolding trim
run_search-IsFound_example =
    run_search-IsFound lowered [] (codes ".") (codes " Test ") (omega arith)

get_list_rows_lem_example :
    (sorted : List ObjectRow) × Perm sorted (filtered none a_model.objects)
    × IsAscending sorted
    × ((get_list_rows a_model none 100).rows ≡ take 100 sorted)
    × ((get_list_rows a_model none 100).total ≡ length (filtered none a_model.objects))
get_list_rows_lem_example = get_list_rows_lem a_model none 100

parse_toml-to_crlf_example :
    parse_toml (to_crlf (codes "a = 1\n[b]\nc = 2\n")) ≡ parse_toml (codes "a = 1\n[b]\nc = 2\n")
parse_toml-to_crlf_example = parse_toml-to_crlf (codes "a = 1\n[b]\nc = 2\n") refl
