-- ===== src/Docs/Search.antt =====
-- The search box of the documentation site (runSearch of docs/site/assets/docs.js).
-- The generated index and the runtime's toLowerCase are parameters.
pub mod Found
pub mod Kept
pub mod Terms
use orbital_viewer.Docs.Nav.{Page, flat, href}
use orbital_viewer.Base.{
  ℕ, zero, suc, ◌+◌, ◌-◌, ◌*◌, ◌/◌, ◌%◌, ◌^◌, ◌≤◌, ◌<◌, min, max, ◌≡◌, refl, sym, ap, ◌∙◌, subst,
  fun_ext, ◌≡⟨◌⟩◌, ◌∎, ◌≢◌, ◌↔◌, ◌⊎◌, inl, inr, Bool, true, false, not, ◌&&◌, ◌||◌, Option, none,
  some, List, [], ◌∷◌, ◌++◌, map, append_assoc, append-nil, arith, ltb, leb, ◌==◌, if◌then◌else◌,
  ltb→lt, lt→ltb, leb→le, ==_iff, tests, Bool-cases, Option-cases, and-true, length, take,
  get_elem?, every, keep, length-append, length-take, length-map, All, All-append, Text, codes,
  ◌===◌, ===_iff, ===_self, lookup, has,
}

-- An entry of the index; a field that is missing is empty, which the script reads alike.
pub record Entry : Type 0 where
  pub page : Text
  pub title : Text
  pub section : Text
  pub anchor : Text
  pub text : Text

-- White space of `trim` and of `\s`.
unfoldable is_space : ℕ → Bool
is_space c =
    leb 9 c && leb c 13
    || c == 32
    || c == 160
    || c == 5760
    || leb 8192 c && leb c 8202
    || c == 8232
    || c == 8233
    || c == 8239
    || c == 8287
    || c == 12288
    || c == 65279

unfoldable trim_start : Text → Text
unfolding is_space
trim_start [] = []
trim_start (c ∷ s) = if is_space c then trim_start s else c ∷ s

unfoldable reverse : Text → Text
reverse [] = []
reverse (c ∷ s) = reverse s ++ (c ∷ [])

unfoldable pub trim : Text → Text
unfolding trim_start reverse
trim s = reverse (trim_start (reverse (trim_start s)))

-- `q.split(/\s+/)`, with the term read so far and whether the last character was white space.
unfoldable split_from : (term : Text) → (gap : Bool) → Text → List Text
unfolding is_space
split_from term gap [] = term ∷ []
split_from term gap (c ∷ s) =
    let inside = split_from (term ++ (c ∷ [])) false s in
    let still = split_from term true s in
    let behind = split_from [] true s in
    if not (is_space c) then inside else if gap then still else term ∷ behind

unfoldable pub split_space : Text → List Text
unfolding split_from
split_space q = split_from [] false q

unfoldable pub starts_with : (word : Text) → Text → Bool
starts_with [] s = true
starts_with (c ∷ word) [] = false
starts_with (c ∷ word) (d ∷ s) = c == d && starts_with word s

-- `hay.indexOf(t) !== -1`
unfoldable pub contains : (hay word : Text) → Bool
unfolding starts_with
contains [] word = starts_with word []
contains (c ∷ s) word = starts_with word (c ∷ s) || contains s word

-- The titles of the pages, behind the generated index.
unfoldable pub page_entry : Page → Entry
page_entry it = record {
  page = it.path;
  title = it.label;
  section = [];
  anchor = [];
  text = it.label;
}

unfoldable pub full_index : (search_index : List Entry) → List Entry
unfolding page_entry flat
full_index search_index = search_index ++ map page_entry flat

unfoldable pub matches : (lower : Text → Text) (terms : List Text) → Entry → Bool
unfolding contains
matches lower terms e =
    let hay = lower (e.title ++ codes " " ++ e.section ++ codes " " ++ e.text) in
    every (contains hay) terms

unfoldable pub key : Entry → Text
key e = e.page ++ codes "#" ++ e.anchor

abbrev member : Text → List Text → Bool
member k [] = false
member k (j ∷ ks) = k === j || member k ks

-- The first entry of each key that is not in `seen`.
unfoldable pub first_of_each : (seen : List Text) → List Entry → List Entry
unfolding key
first_of_each seen [] = []
first_of_each seen (e ∷ es) =
    let again = first_of_each seen es in
    let rest = first_of_each (key e ∷ seen) es in if member (key e) seen then again else e ∷ rest

-- The hits for the terms.
unfoldable pub hits : (lower : Text → Text) → (terms : List Text) → List Entry → List Entry
unfolding matches first_of_each
hits lower terms index = take 20 (first_of_each [] (keep (matches lower terms) index))

-- A link of the list: where it leads, the title and the section.
pub record Link : Type 0 where
  pub target : Text
  pub page_title : Text
  pub part : Text

abbrev pub link : (root : Text) → Entry → Link
link root e = record {
  target = href root e.page ++ (if e.anchor === [] then [] else codes "#" ++ e.anchor);
  page_title = e.title;
  part = e.section;
}

-- What the box shows: closed, open without a match, or open with links.
pub data Panel : Type 0 where
  closed : Panel
  no_matches : Panel
  links : (found : List Link) → Panel

abbrev pub show : (root : Text) → List Entry → Panel
show root [] = no_matches
show root (e ∷ es) = links (map (link root) (e ∷ es))

-- `runSearch(q)`
unfoldable pub run_search :
    (lower : Text → Text) → (search_index : List Entry) → (root q : Text) → Panel
unfolding trim split_space hits full_index ◌===◌ href
run_search lower search_index root q =
    let word = lower (trim q) in
    let found = hits lower (split_space word) (full_index search_index) in
    if ltb (length word) 2 then closed else show root found
