-- ===== src/Renderer/State/Kept.antt =====
-- frontend/js/renderer.js: what setSettings and setSnapshot leave as it was.
use orbital_viewer.Main.View.{renderer_settings}
use orbital_viewer.Model.{Snapshot}
use orbital_viewer.Num.{Num}
use orbital_viewer.Renderer.Scene.{Floats, normalize_settings}
use orbital_viewer.Renderer.State.{
  Scene, on_settings, on_snapshot, take_settings, take_snapshot, with_buffer,
}
use orbital_viewer.Renderer.TrailBuffer.{Buffer}
use orbital_viewer.Renderer.TrailBuffer.Passes.{rebuild_trail_buffer_lem}
use orbital_viewer.Settings.Store.{Store}
use orbital_viewer.Base.{◌≤◌, ◌≡◌, refl, some, arith}

module _ {S : Type 0} (fl : Floats) (rebuild_sky : (epoch : Num) → S) where
  -- Rebuilding the trail buffer changes nothing else.
  with_buffer-kept :
      (st : Scene S)
      → 1 ≤ st.buffer.capacity
      → (b : Buffer) × (with_buffer fl rebuild_sky st ≡ some (record st { buffer = b }))
        × (1 ≤ b.capacity)
  unfolding with_buffer
  with_buffer-kept st room =
      let (b, rebuilt, wider, fits) =
        rebuild_trail_buffer_lem fl st.view st.last_now st.trails st.buffer room in
      (b, rw rebuilt refl, omega (arith, room, wider))

  pub settled :
      (store : Store) (st : Scene S)
      → 1 ≤ st.buffer.capacity
      → (next : Scene S) × (on_settings fl rebuild_sky (renderer_settings store.current) st
          ≡ some next)
        × (1 ≤ next.buffer.capacity)
        × (next.snapshot ≡ st.snapshot)
        × (next.selected ≡ st.selected)
        × (next.view ≡ normalize_settings (renderer_settings store.current))
  unfolding on_settings take_settings
  settled store st room =
      let (b, done, wide) =
        with_buffer-kept (take_settings fl rebuild_sky (renderer_settings store.current) st) room in
      (_, done, wide, refl, refl, refl)

  pub snapped :
      (snap : Snapshot) (now : Num) (st : Scene S)
      → 1 ≤ st.buffer.capacity
      → (next : Scene S) × (on_snapshot fl rebuild_sky (some snap) now st ≡ some next)
        × (1 ≤ next.buffer.capacity)
        × (next.snapshot ≡ some snap)
        × (next.selected ≡ st.selected)
        × (next.view ≡ st.view)
  unfolding on_snapshot take_snapshot
  snapped snap now st room =
      let (b, done, wide) =
        with_buffer-kept (take_snapshot fl rebuild_sky (some snap) now st) room in
      (_, done, wide, refl, refl, refl)
