-- ===== src/Main/Dragging.antt =====
-- frontend/js/main.js: wireOverlayPicking. A click is a press and a release with no movement between
-- them that goes more than five pixels from where the button went down.
use orbital_viewer.Renderer.Pick.{abs}
use orbital_viewer.Num.{lt, Num, whole}
use orbital_viewer.Renderer.Scene.{Floats}
use orbital_viewer.Base.{
  ◌≡◌, Bool, true, false, not, ◌||◌, Option, none, some, List, [], ◌∷◌, map, arith, if◌then◌else◌,
  every,
}

pub record Pointer : Type 0 where
  pub down_x : Num
  pub down_y : Num
  pub dragging : Bool

abbrev pub new_pointer : Pointer
new_pointer = record { down_x = whole 0; down_y = whole 0; dragging = false }

unfoldable pub is_far : Floats → Num → Num → Num → Num → Bool
is_far fl x y to_x to_y = lt (whole 5) (abs (fl.sub to_x x)) || lt (whole 5) (abs (fl.sub to_y y))

pub data PointerEvent : Type 0 where
  down move up : (x y : Num) → PointerEvent

-- The handlers; the result tells at which point of the page to pick, if there is one.
unfoldable pub pointer_event : Floats → Pointer → PointerEvent → Pointer × Option (Num × Num)
unfolding is_far
pointer_event fl p (down x y) = (record { down_x = x; down_y = y; dragging = false }, none)
pointer_event fl p (move x y) =
    (if is_far fl p.down_x p.down_y x y then record p { dragging = true } else p, none)
pointer_event fl p (up x y) = (p, if p.dragging then none else some (x, y))

unfoldable pub run_pointer : Floats → Pointer → List PointerEvent → Pointer
unfolding pointer_event
run_pointer fl p [] = p
run_pointer fl p (e ∷ es) = run_pointer fl ((pointer_event fl p e).0) es

abbrev pub moves : List (Num × Num) → List PointerEvent
moves ps = map (λ p. move p.0 p.1) ps

abbrev pub stays : Floats → Num → Num → List (Num × Num) → Bool
stays fl x y path = every (λ p. not (is_far fl x y p.0 p.1)) path

run_pointer-moves :
    (fl : Floats) (p : Pointer) (path : List (Num × Num))
    → ((run_pointer fl p (moves path)).dragging
        ≡ (p.dragging || not (stays fl p.down_x p.down_y path)))
unfolding run_pointer
run_pointer-moves fl p [] = ground arith
run_pointer-moves fl p (m ∷ path) =
    ground
      (arith, run_pointer-moves fl p path, run_pointer-moves fl (record p { dragging = true }) path)

-- Whatever came before: after a press, some movement and a release at a point, the release picks at
-- that point if no movement went more than five pixels from the press in either direction, and picks
-- nothing otherwise; even if the pointer came back.
pub pointer_event-run_pointer :
    (fl : Floats) (before : Pointer) (x y to_x to_y : Num) (path : List (Num × Num))
    → (pointer_event fl (run_pointer fl before (down x y ∷ moves path)) (up to_x to_y)).1
      ≡ (if stays fl x y path then some (to_x, to_y) else none)
unfolding run_pointer pointer_event
pointer_event-run_pointer fl before x y to_x to_y path =
    ground (arith, run_pointer-moves fl (record { down_x = x; down_y = y; dragging = false }) path)
