-- ===== src/Renderer/State/Current.antt =====
-- What the renderer shows is current.
use orbital_viewer.Renderer.State.{
  take_settings, take_snapshot, velocity_line, satellite_of, sat_sprite, frame, set_selected,
  set_settings, set_snapshot, Scene, on_frame, on_settings, on_snapshot, Event, create_scene,
  run_scene, step, with_buffer,
}
use orbital_viewer.Base.{◌*◌, ◌≤◌, ◌≡◌, refl, ap, ◌∙◌, ◌⊎◌, inl, some, List, [], ◌∷◌, arith, length}
use orbital_viewer.Renderer.Scene.{Floats, rebuild_object_buffer}
use orbital_viewer.Num.{Num}
use orbital_viewer.Renderer.TrailBuffer.Passes.{rebuild_trail_buffer_lem}

-- What the buffers hold is made of the current settings, snapshot and epoch; of the trail buffer,
-- what is drawn has been written.
pub record IsCurrent {S : Type 0} (fl : Floats) (rebuild_sky : (epoch : Num) → S) (st : Scene S)
    : Type 0 where
  pub sprites : st.sprites ≡ rebuild_object_buffer fl st.view st.snapshot
  pub sat : st.sat ≡ sat_sprite fl (satellite_of st.snapshot)
  pub velocity : st.velocity ≡ velocity_line fl (satellite_of st.snapshot)
  pub sky : st.sky ≡ rebuild_sky st.epoch
  pub room : 1 ≤ st.buffer.capacity
  pub drawn :
      (st.buffer.vertices ≡ 0)
      ⊎ ((length st.buffer.written ≡ st.buffer.vertices * 7)
          × (length st.buffer.written ≤ st.buffer.capacity))

-- All but the trail buffer's contents.
record IsFed {S : Type 0} (fl : Floats) (rebuild_sky : (epoch : Num) → S) (st : Scene S)
    : Type 0 where
  pub sprites : st.sprites ≡ rebuild_object_buffer fl st.view st.snapshot
  pub sat : st.sat ≡ sat_sprite fl (satellite_of st.snapshot)
  pub velocity : st.velocity ≡ velocity_line fl (satellite_of st.snapshot)
  pub sky : st.sky ≡ rebuild_sky st.epoch
  pub room : 1 ≤ st.buffer.capacity

module _ {S : Type 0} (fl : Floats) (rebuild_sky : (epoch : Num) → S) where
  with_buffer-IsCurrent :
      (st : Scene S)
      → IsFed fl rebuild_sky st
      → (next : Scene S) × (with_buffer fl rebuild_sky st ≡ some next)
        × IsCurrent fl rebuild_sky next
  unfolding with_buffer
  with_buffer-IsCurrent st h =
      let (b, rebuilt, wider, fits) =
        rebuild_trail_buffer_lem fl st.view st.last_now st.trails st.buffer h.room in
      (
        record st { buffer = b },
        rw rebuilt refl,
        record {
          sprites = h.sprites;
          sat = h.sat;
          velocity = h.velocity;
          sky = h.sky;
          room = omega (arith, h.room, wider);
          drawn = fits;
        },
      )

  step-IsCurrent :
      (e : Event) (st : Scene S)
      → IsCurrent fl rebuild_sky st
      → (next : Scene S) × (step fl rebuild_sky e st ≡ some next) × IsCurrent fl rebuild_sky next
  unfolding step on_snapshot on_settings on_frame take_snapshot take_settings
  step-IsCurrent (set_snapshot snap now) st h =
      with_buffer-IsCurrent (take_snapshot fl rebuild_sky snap now st)
        (record { sprites = refl; sat = refl; velocity = refl; sky = refl; room = h.room })
  step-IsCurrent (set_settings s) st h =
      with_buffer-IsCurrent (take_settings fl rebuild_sky s st)
        (record { sprites = refl; sat = h.sat; velocity = h.velocity; sky = h.sky; room = h.room })
  step-IsCurrent (set_selected id) st h = (
    _,
    refl,
    record {
      sprites = h.sprites;
      sat = h.sat;
      velocity = h.velocity;
      sky = h.sky;
      room = h.room;
      drawn = h.drawn;
    },
  )
  step-IsCurrent (frame now) st h = (
    _,
    refl,
    record {
      sprites = h.sprites;
      sat = h.sat;
      velocity = h.velocity;
      sky = h.sky;
      room = h.room;
      drawn = h.drawn;
    },
  )

  run_scene-IsCurrent :
      (events : List Event) (st : Scene S)
      → IsCurrent fl rebuild_sky st
      → (last : Scene S) × (run_scene fl rebuild_sky (some st) events ≡ some last)
        × IsCurrent fl rebuild_sky last
  unfolding run_scene
  run_scene-IsCurrent [] st h = (st, refl, h)
  run_scene-IsCurrent (e ∷ events) st h =
      let (next, stepped, kept) = step-IsCurrent e st h in
      let (last, ran, current) = run_scene-IsCurrent events next kept in
      (last, ap (λ o. run_scene fl rebuild_sky o events) stepped ∙ ran, current)

-- Any calls of the renderer's methods, in any order, all end, and after them the objects drawn are
-- those of the current snapshot under the current settings, the satellite and its velocity line are
-- the current snapshot's, the sky is that of the current epoch, and what is drawn of the trail buffer
-- has been written and lies inside it.
pub run_scene-create_scene-IsCurrent :
    {S : Type 0} (fl : Floats) (rebuild_sky : (epoch : Num) → S) (date_now : Num)
    (events : List Event)
    → (last : Scene S) × (run_scene fl rebuild_sky
          (some (create_scene fl rebuild_sky date_now))
          events
        ≡ some last)
      × IsCurrent fl rebuild_sky last
unfolding create_scene rebuild_object_buffer sat_sprite velocity_line
run_scene-create_scene-IsCurrent fl rebuild_sky date_now events =
    run_scene-IsCurrent fl rebuild_sky events (create_scene fl rebuild_sky date_now) (record {
      sprites = refl;
      sat = refl;
      velocity = refl;
      sky = refl;
      room = omega arith;
      drawn = inl refl;
    })
