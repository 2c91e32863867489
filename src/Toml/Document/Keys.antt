-- ===== src/Toml/Document/Keys.antt =====
-- frontend/js/toml.js: the keys of what was parsed.
use orbital_viewer.Base.Outcome.{ok-injective, >>=-eq-ok, ◌>>=◌, err, ok, Outcome}
use mathlib.Core.Bool.{false≢true}
use orbital_viewer.Value.{Value}
use orbital_viewer.Toml.Scan.{
  header_tail, empty_table, break_at, value_tail, only_trailing, skip_space, starts_comment, Reason,
  span, is_bare_key_char,
}
use orbital_viewer.Toml.Document.{
  finish_header, guard, dispatch, is_empty, strip_cr, at_line, lines, empty_doc, parse_line,
  parse_toml, parse_lines, parse_value, store, parse_entry, parse_header, assign, expect_equals,
  full_key, Doc,
}
use orbital_viewer.Base.{
  ℕ, ◌+◌, ◌≡◌, refl, sym, ◌∙◌, subst, inl, inr, Bool, true, false, not, ◌||◌, Option, none, some,
  List, [], ◌∷◌, ◌++◌, arith, ◌==◌, Bool-cases, every, All, All-append, Text, ◌===◌, ===_iff, has,
}

-- No key stands twice.
abbrev pub Distinct : List (Text × Value) → Type 0
Distinct [] = Unit
Distinct ((k, v) ∷ es) = (has k es ≡ false) × Distinct es

abbrev pub is_path_char : ℕ → Bool
is_path_char c = is_bare_key_char c || c == b'.'

pub record IsKeyed (doc : Doc) : Type 0 where
  pub table : every is_bare_key_char doc.table ≡ true
  pub distinct : Distinct doc.values
  pub keys : All (λ e. every is_path_char e.0 ≡ true) doc.values

has-append :
    (es : List (Text × Value)) (k j : Text) (v : Value)
    → has k (es ++ (j, v) ∷ []) ≡ (has k es || j === k)
unfolding has
has-append [] k j v = ground arith
has-append ((i, w) ∷ es) k j v = ground (arith, has-append es k j v)

Distinct-append :
    (es : List (Text × Value)) (j : Text) (v : Value)
    → Distinct es
    → has j es ≡ false
    → Distinct (es ++ (j, v) ∷ [])
unfolding has
Distinct-append [] j v d h = (refl, tt)
Distinct-append ((k, w) ∷ es) j v d h = elim (Bool-cases (k === j)) [
  | inl p ↦ absurd (false≢true (sym h ∙ rw p refl))
  | inr p ↦ (
    has-append es k j v ∙ rw (d.0, other k j p) refl,
    Distinct-append es j v d.1 (sym (rw p refl) ∙ h),
  )
]
  where
    other : (k j : Text) → (k === j) ≡ false → (j === k) ≡ false
    other k j p = ground (arith, ===_iff k j, ===_iff j k)

every-span : (p : ℕ → Bool) (s : Text) → every p ((span p s).0) ≡ true
unfolding span
every-span p [] = refl
every-span p (c ∷ s) = ground (arith, every-span p s)

every-path : (s : Text) → every is_bare_key_char s ≡ true → every is_path_char s ≡ true
every-path [] h = refl
every-path (c ∷ s) h = ground (arith, every-path s)

every-append :
    (s t : Text)
    → every is_path_char s ≡ true
    → every is_path_char t ≡ true
    → every is_path_char (s ++ t) ≡ true
every-append [] t h k = k
every-append (c ∷ s) t h k = ground (arith, every-append s t)

every-full_key :
    (table key : Text)
    → every is_bare_key_char table ≡ true
    → every is_bare_key_char key ≡ true
    → every is_path_char (full_key table key) ≡ true
unfolding full_key
every-full_key [] key h k = every-path key k
every-full_key (c ∷ table) key h k =
    every-append (c ∷ table) (b'.' ∷ key) (every-path (c ∷ table) h) (dotted key (every-path key k))
  where
    dotted : (key : Text) → every is_path_char key ≡ true → every is_path_char (b'.' ∷ key) ≡ true
    dotted key h = ground arith

-- What holds of the document, if there is one.
abbrev Keyed : Outcome Reason Doc → Type 0
Keyed (ok d) = IsKeyed d
Keyed (err why) = Unit

store-Keyed :
    (doc : Doc) (key : Text) (v : Value)
    → IsKeyed doc
    → every is_bare_key_char key ≡ true
    → Keyed (store doc key v)
unfolding store
store-Keyed doc key v h k = elim (Bool-cases (has (full_key doc.table key) doc.values)) [
  | inl p ↦ rw p tt
  | inr p ↦ rw p (record {
    table = h.table;
    distinct = Distinct-append doc.values _ v h.distinct p;
    keys = All-append _ doc.values _ h.keys (every-full_key doc.table key h.table k, tt);
  })
]

>>=-Keyed :
    {A : Type 0} (m : Outcome Reason A) (f : A → Outcome Reason Doc)
    → ((a : A) → Keyed (f a))
    → Keyed (m >>= f)
>>=-Keyed (ok a) f h = h a
>>=-Keyed (err e) f h = tt

finish_header-Keyed :
    (doc : Doc) (found : Option (Text × Text)) → IsKeyed doc → Keyed (finish_header doc found)
unfolding finish_header
finish_header-Keyed doc none h = tt
finish_header-Keyed doc (some (name, rest)) h =
    >>=-Keyed (guard (not (is_empty name)) empty_table) _ (λ _.
      elim (Bool-cases (every is_bare_key_char name)) [
        | inr q ↦ rw q tt
        | inl q ↦ rw q (
            >>=-Keyed (guard (only_trailing rest) header_tail) _
              (λ _. record { table = q; distinct = h.distinct; keys = h.keys }))
      ])

parse_header-Keyed : (doc : Doc) (s : Text) → IsKeyed doc → Keyed (parse_header doc s)
unfolding parse_header
parse_header-Keyed doc s h = finish_header-Keyed doc (break_at b']' s) h

assign-Keyed :
    (doc : Doc) (key s : Text)
    → IsKeyed doc
    → every is_bare_key_char key ≡ true
    → Keyed (assign doc key s)
unfolding assign
assign-Keyed doc key s h k = elim (Bool-cases (starts_comment s)) [
  | inl p ↦ rw p tt
  | inr p ↦ rw p (
      >>=-Keyed (parse_value s) _ (λ v.
        >>=-Keyed (guard (only_trailing v.1) value_tail) _ (λ _. store-Keyed doc key v.0 h k)))
]

expect_equals-Keyed :
    (doc : Doc) (key s : Text)
    → IsKeyed doc
    → every is_bare_key_char key ≡ true
    → Keyed (expect_equals doc key s)
unfolding expect_equals
expect_equals-Keyed doc key [] h k = tt
expect_equals-Keyed doc key (c ∷ s) h k = ground (arith, assign-Keyed doc key (skip_space s) h k)

parse_entry-Keyed : (doc : Doc) (s : Text) → IsKeyed doc → Keyed (parse_entry doc s)
unfolding parse_entry
parse_entry-Keyed doc s h = elim (Bool-cases (is_empty ((span is_bare_key_char s).0))) [
  | inl p ↦ rw p tt
  | inr p ↦ rw p (
      expect_equals-Keyed doc ((span is_bare_key_char s).0)
        (skip_space ((span is_bare_key_char s).1)) h (every-span is_bare_key_char s))
]

dispatch-Keyed : (doc : Doc) (s : Text) → IsKeyed doc → Keyed (dispatch doc s)
unfolding dispatch
dispatch-Keyed doc [] h = h
dispatch-Keyed doc (c ∷ s) h =
    ground (arith, parse_header-Keyed doc s h, parse_entry-Keyed doc (c ∷ s) h)

parse_lines-IsKeyed :
    (ln : ℕ) (doc : Doc) (ls : List Text) {d : Doc}
    → IsKeyed doc
    → parse_lines ln doc ls ≡ ok d
    → IsKeyed d
unfolding parse_lines parse_line
parse_lines-IsKeyed ln doc [] h p = subst IsKeyed (ok-injective p) h
parse_lines-IsKeyed ln doc (l ∷ ls) {d} h p =
    let (e, q, r) = >>=-eq-ok (at_line (ln + 1) (parse_line doc l)) _ p in
    parse_lines-IsKeyed (ln + 1) e ls
      (kept (parse_line doc l) e (dispatch-Keyed doc (skip_space (strip_cr l)) h) q) r
  where
    kept : (o : Outcome Reason Doc) (e : Doc) → Keyed o → at_line (ln + 1) o ≡ ok e → IsKeyed e
    kept (ok d) e k q = subst IsKeyed (ok-injective q) k
    kept (err why) e k q = absurd (cc q)

-- A text that parses gives no key twice, and each key is made of the characters of bare keys and
-- dots.
pub parse_toml-Distinct :
    (text : Text) {es : List (Text × Value)}
    → parse_toml text ≡ ok es
    → Distinct es × All (λ e. every is_path_char e.0 ≡ true) es
unfolding parse_toml
parse_toml-Distinct text {es} h =
    let (d, p, q) = >>=-eq-ok (parse_lines 0 empty_doc (lines text)) _ h in
    let keyed =
      parse_lines-IsKeyed 0 empty_doc (lines text)
        (record { table = refl; distinct = tt; keys = tt }) p in
    subst (λ (fs : List (Text × Value)). Distinct fs × All (λ e. every is_path_char e.0 ≡ true) fs)
      (ok-injective q) (keyed.distinct, keyed.keys)
