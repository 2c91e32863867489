-- ===== src/Docs/Links.antt =====
-- The sidebar, the breadcrumbs and the links to the neighbouring pages (docs/site/assets/docs.js).
-- `root` and `here` are the body's data-root and data-page.
pub mod Neighbours
use orbital_viewer.Docs.Nav.{Page, Section, nav, flat, href}
use orbital_viewer.Base.{
  ℕ, zero, suc, ◌+◌, ◌-◌, ◌*◌, ◌/◌, ◌%◌, ◌^◌, ◌≤◌, ◌<◌, min, max, ◌≡◌, refl, sym, ap, ◌∙◌, subst,
  fun_ext, ◌≡⟨◌⟩◌, ◌∎, ◌≢◌, ◌↔◌, ◌⊎◌, inl, inr, Bool, true, false, not, ◌&&◌, ◌||◌, Option, none,
  some, List, [], ◌∷◌, ◌++◌, map, append_assoc, append-nil, arith, ltb, leb, ◌==◌, if◌then◌else◌,
  ltb→lt, lt→ltb, leb→le, ==_iff, tests, Bool-cases, Option-cases, and-true, length, take,
  get_elem?, every, keep, length-append, length-take, length-map, All, All-append, Text, codes,
  ◌===◌, ===_iff, ===_self, lookup, has,
}

-- What the sidebar holds: headings and links, of which the current page's is marked.
pub data Entry : Type 0 where
  heading : (title : Text) → Entry
  link : (href label : Text) (current : Bool) → Entry

unfoldable pub section_links : (root here : Text) → List Page → List Entry
unfolding href ◌===◌
section_links root here [] = []
section_links root here (p ∷ ps) =
    link (href root p.path) p.label (p.path === here) ∷ section_links root here ps

unfoldable pub section_entries : (root here : Text) → Section → List Entry
unfolding section_links ◌===◌
section_entries root here sec =
    (if sec.title === codes "Start" then [] else heading sec.title ∷ [])
    ++ section_links root here sec.items

unfoldable pub sidebar_of : (root here : Text) → List Section → List Entry
unfolding section_entries
sidebar_of root here [] = []
sidebar_of root here (sec ∷ secs) = section_entries root here sec ++ sidebar_of root here secs

unfoldable pub sidebar : (root here : Text) → List Entry
unfolding sidebar_of
sidebar root here = sidebar_of root here nav

abbrev pub one_on : Option ℕ → Option ℕ
one_on none = none
one_on (some i) = some (i + 1)

-- `FLAT.map(path).indexOf(here)`, none for -1
unfoldable pub index_of : (here : Text) → List Page → Option ℕ
unfolding ◌===◌
index_of here [] = none
index_of here (p ∷ ps) =
    let rest = one_on (index_of here ps) in if p.path === here then some 0 else rest

-- The pages before and after the current one.
pub record Around : Type 0 where
  pub prev : Option Page
  pub next : Option Page

unfoldable pub page_before : List Page → ℕ → Option Page
page_before ps zero = none
page_before ps (suc i) = get_elem? ps i

unfoldable pub neighbours_at : List Page → Option ℕ → Around
unfolding page_before
neighbours_at ps none = record { prev = none; next = none }
neighbours_at ps (some i) = record { prev = page_before ps i; next = get_elem? ps (i + 1) }

unfoldable pub neighbours : (here : Text) → Around
unfolding neighbours_at index_of flat
neighbours here = neighbours_at flat (index_of here flat)

abbrev prev_html : (root : Text) → Option Page → Text
prev_html root none = codes "<span></span>"
prev_html root (some p) =
    codes "<a href=\"" ++ (href root p.path ++ (codes "\">&larr; " ++ (p.label ++ codes "</a>")))

abbrev next_html : (root : Text) → Option Page → Text
next_html root none = []
next_html root (some p) =
    codes "<a href=\"" ++ (href root p.path ++ (codes "\">" ++ (p.label ++ codes " &rarr;</a>")))

unfoldable pub page_nav : (root here : Text) → Text
unfolding neighbours href
page_nav root here = prev_html root (neighbours here).prev ++ next_html root (neighbours here).next

-- The title from a later section, or this one's if it has the page.
abbrev title_of : (title : Text) → (place : Option ℕ) → (later : Option Text) → Option Text
title_of title place (some later) = some later
title_of title none none = none
title_of title (some i) none = some title

-- SECTION_OF: the title of the last section that lists the page.
unfoldable pub section_of : (here : Text) → List Section → Option Text
unfolding index_of
section_of here [] = none
section_of here (sec ∷ secs) = title_of sec.title (index_of here sec.items) (section_of here secs)

-- `FLAT.filter(path is here)[0]`
unfoldable pub page_of : (here : Text) → List Page → Option Page
unfolding ◌===◌
page_of here [] = none
page_of here (p ∷ ps) = let rest = page_of here ps in if p.path === here then some p else rest

abbrev span : Text → Text
span t = codes "<span>" ++ (t ++ codes "</span>")

abbrev section_span : Option Text → List Text
section_span none = []
section_span (some t) = if t === codes "Start" then [] else span t ∷ []

abbrev label_or : Option Page → Text → Text
label_or none here = here
label_or (some p) here = p.label

abbrev shown_section : Option Page → (here : Text) → List Text
shown_section none here = []
shown_section (some p) here = section_span (section_of here nav)

-- The parts that are joined, of every page but the first.
unfoldable pub breadcrumbs : (root here : Text) → List Text
unfolding href page_of flat section_of ◌===◌
breadcrumbs root here =
    let cur = page_of here flat in
    let home = codes "<a href=\"" ++ (href root (codes "index") ++ codes "\">Home</a>") in
    if here === codes "index"
    then []
    else (home ∷ shown_section cur here) ++ (span (label_or cur here) ∷ [])
