-- ===== src/Sky/Stars/Turned.antt =====
-- The loop that writes the stars against the rotation of one vector.
use orbital_viewer.Net.Message.{Vec3}
use orbital_viewer.Num.Arrays.{set_at-append, read-append, set_at}
use orbital_viewer.Sky.Catalog.{Star}
use orbital_viewer.Sky.{gmst_rad, eci_to_ecef, MathFns}
use orbital_viewer.Sky.Stars.{
  stars_ecef_into, star_vector, star_eci, star_loop, elements, star_step,
}
use orbital_viewer.Base.{
  ℕ, ◌+◌, ◌*◌, ◌≡◌, refl, sym, ap, ◌∙◌, List, [], ◌∷◌, ◌++◌, append_assoc, arith, length,
  length-append,
}
use orbital_viewer.Num.{Num}

-- Three writes in a row.
set_three :
    (x y z a b c : Num) (written rest : List Num) (i : ℕ)
    → i ≡ length written
    → set_at (i + 2) z (set_at (i + 1) y (set_at i x (written ++ (a ∷ b ∷ c ∷ rest))))
      ≡ written ++ (x ∷ y ∷ z ∷ rest)
unfolding set_at
set_three x y z a b c written rest i h =
    rw
      (
        set_at-append x written (a ∷ b ∷ c ∷ rest) 0 i (omega (arith, h)),
        set_at-append y written (x ∷ b ∷ c ∷ rest) 1 (i + 1) (omega (arith, h)),
      )
      (set_at-append z written (x ∷ y ∷ c ∷ rest) 2 (i + 2) (omega (arith, h)))

-- The catalogue, each star turned by `eci_to_ecef` on its own.
unfoldable pub turned : MathFns → (fround store : Num → Num) → (gmst : Num) → List Star → List Num
unfolding star_vector eci_to_ecef elements
turned fns fround store gmst [] = []
turned fns fround store gmst (s ∷ rest) =
    elements store (eci_to_ecef fns (star_vector fns fround s) gmst)
    ++ turned fns fround store gmst rest

module _ (fns : MathFns) (store : Num → Num) (gmst : Num) where
  star_step-append :
      (v : Vec3) (before after written rest : List Num) (a b c : Num) (i : ℕ)
      → length before ≡ i * 3
      → length written ≡ i * 3
      → star_step store
          (fns.cos gmst)
          (fns.sin gmst)
          (before ++ (v.x ∷ v.y ∷ v.z ∷ after))
          i
          (written ++ (a ∷ b ∷ c ∷ rest))
        ≡ written ++ (elements store (eci_to_ecef fns v gmst) ++ rest)
  unfolding star_step eci_to_ecef elements
  star_step-append v before after written rest a b c i h k =
      let found = v.x ∷ v.y ∷ v.z ∷ after in
      rw
        (
          read-append before found 0 (i * 3) (omega (arith, h)),
          read-append before found 1 (i * 3 + 1) (omega (arith, h)),
          read-append before found 2 (i * 3 + 2) (omega (arith, h)),
        )
        (set_three _ _ _ a b c written rest (i * 3) (sym k))

  follows :
      (done now : List Num) (i : ℕ)
      → length done ≡ i * 3
      → length now ≡ 3
      → length (done ++ now) ≡ (i + 1) * 3
  follows done now i h k = omega (arith, length-append done now, h, k)

  star_loop-turned :
      (fround : Num → Num) (stars : List Star) (before written room tail : List Num) (i : ℕ)
      → length before ≡ i * 3
      → length written ≡ i * 3
      → length room ≡ length stars * 3
      → star_loop store
          (fns.cos gmst)
          (fns.sin gmst)
          (before ++ star_eci fns fround stars)
          (length stars)
          i
          (written ++ (room ++ tail))
        ≡ written ++ (turned fns fround store gmst stars ++ tail)
  unfolding star_loop star_eci turned
  star_loop-turned fround [] before written [] tail i h k r = refl
  star_loop-turned fround [] before written (a ∷ room) tail i h k r = absurd (omega (arith, r))
  star_loop-turned fround (s ∷ stars) before written (a ∷ b ∷ c ∷ room) tail i h k r =
      let v = star_vector fns fround s in
      let now = elements store (eci_to_ecef fns v gmst) in
      let step =
        star_step-append v before (star_eci fns fround stars) written (room ++ tail) a b c i h k in
      let rest =
        star_loop-turned fround stars (before ++ (v.x ∷ v.y ∷ v.z ∷ [])) (written ++ now) room tail
          (i + 1) (follows before (v.x ∷ v.y ∷ v.z ∷ []) i h refl) (follows written now i k refl)
          (omega (arith, r)) in
      let found = v.x ∷ v.y ∷ v.z ∷ [] in
      let loop = λ (e : List Num) (o : List Num).
        star_loop store (fns.cos gmst) (fns.sin gmst) e (length stars) (i + 1) o in
      ap (loop (before ++ (v.x ∷ v.y ∷ v.z ∷ star_eci fns fround stars))) step
      ∙ ap (λ e. loop e (written ++ (now ++ (room ++ tail))))
          (sym (append_assoc before found (star_eci fns fround stars)))
      ∙ ap (loop ((before ++ found) ++ star_eci fns fround stars))
          (sym (append_assoc written now (room ++ tail)))
      ∙ rest
      ∙ append_assoc written now (turned fns fround store gmst stars ++ tail)
  star_loop-turned fround (s ∷ stars) before written [] tail i h k r = absurd (omega (arith, r))
  star_loop-turned fround (s ∷ stars) before written (a ∷ []) tail i h k r =
      absurd (omega (arith, r))
  star_loop-turned fround (s ∷ stars) before written (a ∷ b ∷ []) tail i h k r =
      absurd (omega (arith, r))

-- A call with room for the whole catalogue writes each star's three numbers in the order of the
-- catalogue, those of `eci_to_ecef` for that star alone at the sidereal time of the date; what
-- stands behind them stays, and the count returned is that of the catalogue.
pub stars_ecef_into-turned :
    (fns : MathFns) (fround store : Num → Num) (stars : List Star) (ms : Num) (room tail : List Num)
    → length room ≡ length stars * 3
    → stars_ecef_into fns fround store stars ms (room ++ tail)
      ≡ (turned fns fround store (gmst_rad fns ms) stars ++ tail, length stars)
unfolding stars_ecef_into
stars_ecef_into-turned fns fround store stars ms room tail h =
    ap (λ o. (o, length stars))
      (star_loop-turned fns store (gmst_rad fns ms) fround stars [] [] room tail 0 refl refl h)
