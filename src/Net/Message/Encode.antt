-- ===== src/Net/Message/Encode.antt =====
-- docs/PROTOCOL_WS.md: the frames of the protocol, as the values that their JSON text stands for.
use orbital_viewer.Base.{ℕ, Option, none, some, [], ◌∷◌, map, Text, codes}
use orbital_viewer.Net.Message.{
  Category, unknown, debris, star, comet, satellite, ground_hot, Vec3, Satellite, ObjectRow,
  TrailPoint, Message, hello, state,
}
use orbital_viewer.Num.{whole}
use orbital_viewer.Value.{Value, null, num, str, arr, obj, field, end, of_items}

abbrev pub category_code : Category → ℕ
category_code unknown = 0
category_code debris = 1
category_code star = 2
category_code comet = 3
category_code satellite = 4
category_code ground_hot = 5

abbrev pub encode_vec : Vec3 → Value
encode_vec v = arr (of_items (num v.x ∷ num v.y ∷ num v.z ∷ []))

abbrev pub encode_cells : ObjectRow → (vx vy vz : Value) → Value
encode_cells r vx vy vz = arr (
    of_items (
      num r.id
      ∷ num (whole (category_code r.cat))
      ∷ num r.pos.x
      ∷ num r.pos.y
      ∷ num r.pos.z
      ∷ vx
      ∷ vy
      ∷ vz
      ∷ num r.conf
      ∷ num r.intensity
      ∷ num r.flags
      ∷ []))

abbrev pub encode_with_vel : ObjectRow → Option Vec3 → Value
encode_with_vel r none = encode_cells r null null null
encode_with_vel r (some v) = encode_cells r (num v.x) (num v.y) (num v.z)

unfoldable pub encode_row : ObjectRow → Value
encode_row r = encode_with_vel r r.vel

unfoldable pub encode_trail_point : TrailPoint → Value
encode_trail_point p =
    arr (of_items (num p.id ∷ num p.t ∷ num p.pos.x ∷ num p.pos.y ∷ num p.pos.z ∷ []))

unfoldable pub encode_satellite : Option Satellite → Value
encode_satellite none = null
encode_satellite (some s) = obj (
    field (codes "id") (num s.id) (
      field (codes "seq") (num s.seq)
        (field (codes "pos") (encode_vec s.pos) (field (codes "vel") (encode_vec s.vel) end))))

unfoldable pub encode_time : Option Text → Value
encode_time none = null
encode_time (some s) = str s

unfoldable pub encode : Message → Value
encode (hello h) = obj (
    field (codes "type") (str (codes "hello")) (
      field (codes "protocolVersion") (num (whole 1)) (
        field (codes "serverTime") (str h.server_time) (
          field (codes "broadcastHz") (num h.broadcast_hz)
            (field (codes "limits") (obj h.limits) end)))))
encode (state s) = obj (
    field (codes "type") (str (codes "state")) (
      field (codes "serverTime") (str s.server_time) (
        field (codes "lastDataTime") (encode_time s.last_data_time) (
          field (codes "satellite") (encode_satellite s.satellite) (
            field (codes "objects") (arr (of_items (map encode_row s.objects))) (
              field (codes "trailPoints") (arr (of_items (map encode_trail_point s.trail_points)))
                (field (codes "stats") (obj s.stats) end)))))))
