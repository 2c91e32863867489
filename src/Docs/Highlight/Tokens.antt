-- ===== src/Docs/Highlight/Tokens.antt =====
-- The highlighter's tokens: claiming ends and keeps them apart, and sorting puts them in a row.
use orbital_viewer.Docs.Highlight.{
  insert, claim, sort, Exec, some_clash, claim_step, Token, claim_from, push, clashes,
}
use orbital_viewer.Docs.Highlight.Escape.{plain}
use orbital_viewer.Docs.Langs.{Pattern}
use orbital_viewer.Base.{
  ℕ, zero, suc, ◌+◌, ◌≤◌, ◌<◌, ◌≡◌, refl, ◌⊎◌, inl, inr, true, false, Option, none, some, List, [],
  ◌∷◌, ◌++◌, arith, leb, ◌==◌, if◌then◌else◌, Bool-cases, Option-cases, length, All, All-append,
  Text,
}

-- What a search gives: a match at or behind the start, that is not empty and lies in the text.
unfoldable pub Finds : Exec → (src : Text) → Pattern → Type 0
Finds exec src re =
    (last s e : ℕ) → exec re src last ≡ some (s, e) → (last ≤ s) × (s < e) × (e ≤ length src)

-- The same of a pattern that a language may lack.
unfoldable pub FindsAny : Exec → (src : Text) → Option Pattern → Type 0
unfolding Finds
FindsAny exec src none = Unit {0}
FindsAny exec src (some re) = Finds exec src re

-- A token that is not empty, with a class name.
unfoldable pub IsToken : Token → Type 0
unfolding plain
IsToken t = (t.start < t.end) × (plain t.cls ≡ true)

abbrev pub Apart : Token → Token → Type 0
Apart t u = (t.end ≤ u.start) ⊎ (u.end ≤ t.start)

abbrev pub AllApart : List Token → Type 0
AllApart [] = Unit {0}
AllApart (t ∷ ts) = All (Apart t) ts × AllApart ts

abbrev pub Sound : List Token → Type 0
Sound ts = All IsToken ts × AllApart ts

-- The tokens stand in a row from `pos` on.
unfoldable pub Chain : (pos : ℕ) → List Token → Type 0
Chain pos [] = Unit {0}
Chain pos (t ∷ ts) = (pos ≤ t.start) × (t.start < t.end) × (plain t.cls ≡ true) × Chain t.end ts

no_clash-Apart :
    (u : Token) (ts : List Token)
    → u.start < u.end
    → All IsToken ts
    → some_clash u.start u.end ts ≡ false
    → All (λ t. Apart t u) ts
unfolding clashes IsToken
no_clash-Apart u [] h all free = tt
no_clash-Apart u (t ∷ ts) h (now, all) free =
    (ground (arith, free, h, now), no_clash-Apart u ts h all (ground (arith, free)))

AllApart-append :
    (ts : List Token) (u : Token)
    → AllApart ts
    → All (λ t. Apart t u) ts
    → AllApart (ts ++ (u ∷ []))
AllApart-append [] u apart new = (tt, tt)
AllApart-append (t ∷ ts) u (now, apart) (head, new) =
    (All-append (Apart t) ts (u ∷ []) now (head, tt), AllApart-append ts u apart new)

push-Sound :
    (s e : ℕ) (cls : Text) (ts : List Token)
    → s < e
    → plain cls ≡ true
    → Sound ts
    → Sound (push s e cls ts)
unfolding push IsToken
push-Sound s e cls ts h p (all, apart) = elim (Bool-cases (some_clash s e ts)) [
  | inl q ↦ rw q (all, apart)
  | inr q ↦
      let u : Token = record { start = s; end = e; cls = cls } in
      rw q (
        All-append IsToken ts (u ∷ []) all ((h, p), tt),
        AllApart-append ts u apart (no_clash-Apart u ts h all q),
      )
]

-- Where the next search starts.
next-end : (s e : ℕ) → s < e → (if s == e then e + 1 else e) ≡ e
next-end s e h = ground (arith, h)

claim_from-Sound :
    (exec : Exec) (re : Pattern) (cls src : Text) (fuel last : ℕ) (ts : List Token)
    → Finds exec src re
    → plain cls ≡ true
    → last ≤ length src
    → length src + 1 ≤ last + fuel
    → Sound ts
    → (us : List Token) × (claim_from exec re cls src fuel last ts ≡ some us) × Sound us
unfolding claim_from claim_step Finds
claim_from-Sound exec re cls src zero last ts finds p inside enough sound =
    absurd (omega (arith, inside, enough))
claim_from-Sound exec re cls src (suc fuel) last ts finds p inside enough sound =
    elim (Option-cases (exec re src last)) [
      | inl q ↦ (ts, rw q refl, sound)
      | inr ((s, e), q) ↦
          let (ahead, wide, within) = finds last s e q in
          let (us, claimed, kept) =
            claim_from-Sound exec re cls src fuel e (push s e cls ts) finds p within
              (omega (arith, ahead, wide, enough)) (push-Sound s e cls ts wide p sound) in
          (us, rw (q, next-end s e wide) claimed, kept)
    ]

-- `claim` ends, and keeps the tokens apart.
pub claim-Sound :
    (exec : Exec) (src : Text) (re : Option Pattern) (cls : Text) (ts : List Token)
    → FindsAny exec src re
    → plain cls ≡ true
    → Sound ts
    → (us : List Token) × (claim exec src re cls ts ≡ some us) × Sound us
unfolding claim FindsAny
claim-Sound exec src none cls ts finds p sound = (ts, refl, sound)
claim-Sound exec src (some re) cls ts finds p sound =
    claim_from-Sound exec re cls src (length src + 2) 0 ts finds p (omega arith) (omega arith) sound

All-insert :
    (P : Token → Type 0) (t : Token) (us : List Token) → P t → All P us → All P (insert t us)
unfolding insert
All-insert P t [] h all = (h, tt)
All-insert P t (u ∷ us) h (now, all) = elim (Bool-cases (leb t.start u.start)) [
  | inl q ↦ rw q (h, (now, all))
  | inr q ↦ rw q (now, All-insert P t us h all)
]

All-sort : (P : Token → Type 0) (ts : List Token) → All P ts → All P (sort ts)
unfolding sort
All-sort P [] all = tt
All-sort P (t ∷ ts) (now, all) = All-insert P t (sort ts) now (All-sort P ts all)

before : (t u : Token) → Apart t u → u.start < u.end → leb t.start u.start ≡ true → t.end ≤ u.start
before t u (inl h) long r = h
before t u (inr h) long r = ground (arith, h, long, r)

behind : (t u : Token) → Apart t u → t.start < t.end → leb t.start u.start ≡ false → u.end ≤ t.start
behind t u (inl h) long r = ground (arith, h, long, r)
behind t u (inr h) long r = h

insert-Chain :
    (t : Token) (pos : ℕ) (us : List Token)
    → pos ≤ t.start
    → IsToken t
    → All (Apart t) us
    → Chain pos us
    → Chain pos (insert t us)
unfolding insert Chain IsToken
insert-Chain t pos [] h (wide, p) apart chain = (h, wide, p, tt)
insert-Chain t pos (u ∷ us) h (wide, p) (now, apart) (first, long, q, chain) =
    elim (Bool-cases (leb t.start u.start)) [
      | inl r ↦ rw r (h, wide, p, (before t u now long r, long, q, chain))
      | inr r ↦
          rw r
            (first, long, q, insert-Chain t u.end us (behind t u now wide r) (wide, p) apart chain)
    ]

pub sort-Chain : (ts : List Token) → Sound ts → Chain 0 (sort ts)
unfolding sort Chain
sort-Chain [] sound = tt
sort-Chain (t ∷ ts) ((now, all), (apart, rest)) =
    insert-Chain t 0 (sort ts) (omega arith) now (All-sort (Apart t) ts apart)
      (sort-Chain ts (all, rest))
