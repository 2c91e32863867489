-- ===== src/Camera/Eye.antt =====
-- frontend/js/camera.js: where the orbit camera is and what it sees.
use orbital_viewer.Num.{Num, whole}
use orbital_viewer.Num.Arith.{add, mul}
use orbital_viewer.Sky.{MathFns}
use orbital_viewer.Camera.{Camera}
use orbital_viewer.Math3.{look_at}
use orbital_viewer.Net.Message.{Vec3}
use orbital_viewer.Base.{List}

unfoldable pub get_eye : MathFns → (target : Vec3) → Camera → Vec3
unfolding add mul
get_eye fns target c =
    let flat = mul c.distance (fns.cos c.pitch) in
    record {
      x = add target.x (mul flat (fns.cos c.yaw));
      y = add target.y (mul flat (fns.sin c.yaw));
      z = add target.z (mul c.distance (fns.sin c.pitch));
    }

unfoldable pub get_view_matrix :
    MathFns → (fround : Num → Num) → (target : Vec3) → Camera → List Num
unfolding get_eye look_at
get_view_matrix fns fround target c =
    look_at fns fround (get_eye fns target c) target
      (record { x = whole 0; y = whole 0; z = whole 1 })
