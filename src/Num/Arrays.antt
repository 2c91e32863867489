-- ===== src/Num/Arrays.antt =====
-- Typed arrays of numbers: the list of the numbers, where a write past the end is dropped.
use orbital_viewer.Num.{nan, Num}
use orbital_viewer.Base.{
  ℕ, zero, suc, ◌+◌, ◌≡◌, refl, sym, ap, ◌∙◌, Option, none, some, List, [], ◌∷◌, ◌++◌, append_assoc,
  arith, length, get_elem?, length-append,
}

-- `out[b] = v`
unfoldable pub set_at : (b : ℕ) → Num → List Num → List Num
set_at b v [] = []
set_at zero v (x ∷ xs) = v ∷ xs
set_at (suc b) v (x ∷ xs) = x ∷ set_at b v xs

or_nan : Option Num → Num
or_nan none = nan
or_nan (some x) = x

-- `out[b]`, read as a number
unfoldable pub read : List Num → (b : ℕ) → Num
unfolding or_nan
read xs b = or_nan (get_elem? xs b)

pub read-append : (xs ys : List Num) (n b : ℕ) → b ≡ length xs + n → read (xs ++ ys) b ≡ read ys n
unfolding read
read-append [] ys n b h = ap (read ys) (omega (arith, h))
read-append (x ∷ xs) ys n zero h = absurd (omega (arith, h))
read-append (x ∷ xs) ys n (suc b) h = read-append xs ys n b (omega (arith, h))

pub set_at-append :
    (v : Num) (xs ys : List Num) (n b : ℕ)
    → b ≡ length xs + n
    → set_at b v (xs ++ ys) ≡ xs ++ set_at n v ys
unfolding set_at
set_at-append v [] ys n b h = ap (λ k. set_at k v ys) (omega (arith, h))
set_at-append v (x ∷ xs) ys n zero h = absurd (omega (arith, h))
set_at-append v (x ∷ xs) ys n (suc b) h = ap (x ∷◌) (set_at-append v xs ys n b (omega (arith, h)))

-- `for (const v of vs) out[b++] = v`
unfoldable pub write_from : (vs : List Num) (b : ℕ) → List Num → List Num
unfolding set_at
write_from [] b out = out
write_from (v ∷ vs) b out = write_from vs (b + 1) (set_at b v out)

pub length-set_at : (b : ℕ) (v : Num) (xs : List Num) → length (set_at b v xs) ≡ length xs
unfolding set_at
length-set_at b v [] = refl
length-set_at zero v (x ∷ xs) = refl
length-set_at (suc b) v (x ∷ xs) = ap suc (length-set_at b v xs)

pub length-write_from :
    (vs : List Num) (b : ℕ) (out : List Num) → length (write_from vs b out) ≡ length out
unfolding write_from
length-write_from [] b out = refl
length-write_from (v ∷ vs) b out =
    length-write_from vs (b + 1) (set_at b v out) ∙ length-set_at b v out

-- Writing one run of numbers behind another.
pub write_from-append :
    (vs ws : List Num) (b : ℕ) (out : List Num)
    → write_from ws (b + length vs) (write_from vs b out) ≡ write_from (vs ++ ws) b out
unfolding write_from
write_from-append [] ws b out = ap (λ k. write_from ws k out) (omega arith)
write_from-append (v ∷ vs) ws b out =
    let moved : b + suc (length vs) ≡ b + 1 + length vs = omega arith in
    ap (λ k. write_from ws k (write_from vs (b + 1) (set_at b v out))) moved
    ∙ write_from-append vs ws (b + 1) (set_at b v out)

write_from-behind :
    (vs before out : List Num) (b : ℕ)
    → b ≡ length before
    → length out ≡ length vs
    → write_from vs b (before ++ out) ≡ before ++ vs
unfolding write_from set_at
write_from-behind [] before [] b h k = refl
write_from-behind [] before (x ∷ out) b h k = absurd (omega (arith, k))
write_from-behind (v ∷ vs) before [] b h k = absurd (omega (arith, k))
write_from-behind (v ∷ vs) before (x ∷ out) b h k =
    ap (write_from vs (b + 1)) (set_at-append v before (x ∷ out) 0 b (omega (arith, h)))
    ∙ ap (write_from vs (b + 1)) (sym (append_assoc before (v ∷ []) out))
    ∙ write_from-behind vs (before ++ (v ∷ [])) out (b + 1)
        (omega (arith, h, length-append before (v ∷ []))) (omega (arith, k))
    ∙ append_assoc before (v ∷ []) vs

-- As many numbers as the array has, from its start on, leave nothing of what it held.
pub write_from-whole : (vs out : List Num) → length out ≡ length vs → write_from vs 0 out ≡ vs
write_from-whole vs out h = write_from-behind vs [] out 0 refl h
