-- ===== src/Handler/BuildHouse.antt =====
-- handler/HandleBuildHouse.cpp: the handlers that change the house a group builds.
use teachserver.Base.{ℕ, Option, none, some, ◌>>=◌, ◌==◌, if◌then◌else◌, get_u32, put_u32}
use teachserver.Protocol.{CommandType, code}
use teachserver.Protocol.Command.{
  ct_build_house_game_start, st_build_house_game_start, st_build_house_update,
  st_build_house_change_layer, st_build_house_add_pic, st_build_house_del_pic,
}
use teachserver.Single.{null, get_fd, block, with_block}
use teachserver.House
use teachserver.House.{MakeHouse, new_node}
use teachserver.House.Layers.{layer_down}
use teachserver.House.Group.{Group, send_to_other_student}
use teachserver.Room
use teachserver.Room.{Room, with_group, get_auto_node_id}
use teachserver.Room.Games.{build_house_start}
use teachserver.Server.{Server, with_room, free, room_of, body, command, c_str}
use teachserver.Post.{post_teacher_to_white}
use teachserver.Handler.Forward.{Handler}

unfoldable pub handle_build_house_game_start : Handler
unfolding build_house_start post_teacher_to_white code
handle_build_house_game_start env p w = if p == null then some w else elim (room_of p w) [
  | none ↦ some (free p w)
  | some (k, room) ↦
      let w' = with_room k (build_house_start room) w in
      if command p w' == code ct_build_house_game_start
      then some (post_teacher_to_white p st_build_house_game_start w').1
      else some w'
]

-- The room and the group of the client that sent a buffer.
unfoldable pub group_of : ℕ → Server → Option (ℕ × Room × ℕ × Group)
unfolding Room.get_group_by_fd
group_of p w = elim (room_of p w) [
  | none ↦ none
  | some (k, room) ↦ elim (Room.get_group_by_fd (get_fd p w.single) room) [
    | none ↦ none
    | some (j, group) ↦ some (k, room, j, group)
  ]
]

abbrev pub with_house : ℕ → Room → ℕ → Group → MakeHouse → Server → Server
with_house k room j group house w =
    with_room k (with_group j (record group { make_house = house }) room) w

abbrev send_to_group : ℕ → CommandType → Group → Server → Option Server
send_to_group p t group w =
    send_to_other_student p t group w.single >>= λ s. some (record w { single = s })

-- struct Make_House_Update: node_id, x, y, zoom, angle. A refused update keeps the buffer.
unfoldable pub handle_build_house_update : Handler
unfolding group_of House.update send_to_other_student
handle_build_house_update env p w = elim (group_of p w) [
  | none ↦ some w
  | some (k, room, j, group) ↦
      let m = body p w in
      let (house, result) =
        House.update group.make_house (get_fd p w.single) (get_u32 m 0) (get_u32 m 4) (get_u32 m 8)
          (get_u32 m 16) (get_u32 m 12) in
      let w' = with_house k room j group house w in
      if result == 0 then send_to_group p st_build_house_update group w' else some w'
]

-- `t_change_layer < 0` and `> 0` compare the pointer, which is above NULL: always layer_down.
unfoldable pub handle_build_house_change_layer : Handler
unfolding group_of layer_down send_to_other_student
handle_build_house_change_layer env p w = elim (group_of p w) [
  | none ↦ some w
  | some (k, room, j, group) ↦ do
    let m = body p w
    r ← layer_down env.right_first group.make_house (get_u32 m 0) (get_u32 m 4)
    send_to_group p st_build_house_change_layer group (with_house k room j group r.0 w)
]

-- struct Make_House_Add_Pic: node_id, which the server fills in, and picture_name[40].
unfoldable pub handle_build_house_add_pic : Handler
unfolding group_of get_auto_node_id c_str new_node House.add send_to_other_student
handle_build_house_add_pic env p w = elim (group_of p w) [
  | none ↦ some w
  | some (k, room, j, group) ↦ do
    let (node_id, room') = get_auto_node_id room
    let b = block p w.single
    let s = with_block p (record b { body = put_u32 b.body 0 node_id }) w.single
    picture_name ← c_str (block p s).body 4 40
    let node = new_node (get_fd p s) node_id picture_name
    let house = (House.add group.make_house node_id (some node)).0
    let w' = with_house k room' j group house (record w { single = s })
    send_to_group p st_build_house_add_pic group w'
]

unfoldable pub handle_build_house_del_pic : Handler
unfolding group_of House.del send_to_other_student
handle_build_house_del_pic env p w = elim (group_of p w) [
  | none ↦ some w
  | some (k, room, j, group) ↦
      let (house, result) = House.del group.make_house (get_u32 (body p w) 0) in
      let w' = with_house k room j group house w in
      if result == 0 then send_to_group p st_build_house_del_pic group w' else some w'
]
