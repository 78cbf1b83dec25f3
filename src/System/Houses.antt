-- ===== src/System/Houses.antt =====
-- The handlers that change a group's house write back a room whose maps keep their keys.
use teachserver.Base.{ℕ, ◌≡◌, some, List, arith, Option-cases, inl, inr, get_u32, put_u32}
use teachserver.StdMap
use teachserver.StdMap.{StdMap}
use teachserver.StdMap.Laws.{assign-IsOrdered}
use teachserver.House
use teachserver.House.{MakeHouse}
use teachserver.House.Layers.{layer_down}
use teachserver.House.Group.{Group}
use teachserver.Single.{get_fd, with_block, block}
use teachserver.Room
use teachserver.Room.{Room, with_group}
use teachserver.Server.{Server, room_of, body, c_str}
use teachserver.Handler.BuildHouse
use teachserver.System.Ordered.{IsSound, IsWell, Keeps, get_room_by_fd-IsSound, assign-IsWell}
use teachserver.System.Games.{with_groups-IsSound}

group_of_room :
    (p k j : ℕ) (r : Room) (g : Group) (w : Server)
    → BuildHouse.group_of p w ≡ some (k, r, j, g)
    → room_of p w ≡ some (k, r)
unfolding BuildHouse.group_of
group_of_room p k j r g w h = ground arith

-- The room with a group's house replaced.
with_house-IsWell :
    {ks : List ℕ} (p k j : ℕ) (r : Room) (g : Group) (house : MakeHouse) (w : Server)
    → IsWell ks w.room_map
    → BuildHouse.group_of p w ≡ some (k, r, j, g)
    → IsWell ks (StdMap.assign k (with_group j (record g { make_house = house }) r) w.room_map)
with_house-IsWell p k j r g house w u e =
    let v = get_room_by_fd-IsSound _ k r w.room_map u.sound (group_of_room p k j r g w e) in
    let g' = record g { make_house = house } in
    assign-IsWell k (with_group j g' r) w.room_map
      (with_groups-IsSound k r _ v (assign-IsOrdered j g' r.buildhouse_groups v.groups)) u

pub handle_build_house_update-Keeps : Keeps BuildHouse.handle_build_house_update
unfolding BuildHouse.handle_build_house_update
handle_build_house_update-Keeps ks env p w w' u h = elim (Option-cases (BuildHouse.group_of p w)) [
  | inl e ↦ ground arith
  | inr ((k, r, j, g), e) ↦
      let m = body p w in
      let (house, result) =
        House.update g.make_house (get_fd p w.single) (get_u32 m 0) (get_u32 m 4) (get_u32 m 8)
          (get_u32 m 16) (get_u32 m 12) in
      ground (arith, with_house-IsWell p k j r g house w u e)
]

pub handle_build_house_change_layer-Keeps : Keeps BuildHouse.handle_build_house_change_layer
unfolding BuildHouse.handle_build_house_change_layer
handle_build_house_change_layer-Keeps ks env p w w' u h =
    elim (Option-cases (BuildHouse.group_of p w)) [
      | inl e ↦ ground arith
      | inr ((k, r, j, g), e) ↦
          let m = body p w in
          elim (Option-cases
            (layer_down env.right_first g.make_house (get_u32 m 0) (get_u32 m 4))) [
              | inl f ↦ absurd (ground arith)
              | inr (moved, f) ↦ ground (arith, with_house-IsWell p k j r g moved.0 w u e)
            ]
    ]

pub handle_build_house_del_pic-Keeps : Keeps BuildHouse.handle_build_house_del_pic
unfolding BuildHouse.handle_build_house_del_pic
handle_build_house_del_pic-Keeps ks env p w w' u h = elim (Option-cases (BuildHouse.group_of p w)) [
  | inl e ↦ ground arith
  | inr ((k, r, j, g), e) ↦
      let (house, result) = House.del g.make_house (get_u32 (body p w) 0) in
      ground (arith, with_house-IsWell p k j r g house w u e)
]

-- The room after a number for a node was taken.
numbered-IsWell :
    {ks : List ℕ} (p k j : ℕ) (r : Room) (g : Group) (house : MakeHouse) (w : Server)
    → IsWell ks w.room_map
    → BuildHouse.group_of p w ≡ some (k, r, j, g)
    → IsWell ks (
        StdMap.assign k
          (with_group j (record g { make_house = house }) (Room.get_auto_node_id r).1)
          w.room_map)
unfolding Room.get_auto_node_id
numbered-IsWell p k j r g house w u e =
    let v = get_room_by_fd-IsSound _ k r w.room_map u.sound (group_of_room p k j r g w e) in
    let g' = record g { make_house = house } in
    let v' : IsSound k (Room.get_auto_node_id r).1 = record {
      id = v.id;
      students = v.students;
      groups = v.groups;
      puzzles = v.puzzles;
    } in
    assign-IsWell k _ w.room_map
      (with_groups-IsSound k (Room.get_auto_node_id r).1 _ v'
        (assign-IsOrdered j g' r.buildhouse_groups v.groups))
      u

pub handle_build_house_add_pic-Keeps : Keeps BuildHouse.handle_build_house_add_pic
unfolding BuildHouse.handle_build_house_add_pic
handle_build_house_add_pic-Keeps ks env p w w' u h = elim (Option-cases (BuildHouse.group_of p w)) [
  | inl e ↦ ground arith
  | inr ((k, r, j, g), e) ↦
      let node_id = (Room.get_auto_node_id r).0 in
      let b = block p w.single in
      let s = with_block p (record b { body = put_u32 b.body 0 node_id }) w.single in
      elim (Option-cases (c_str (block p s).body 4 40)) [
        | inl f ↦ absurd (ground arith)
        | inr (name, f) ↦
            let house =
              (House.add g.make_house node_id
                (some (House.new_node (get_fd p s) node_id name))).0 in
            ground (arith, numbered-IsWell p k j r g house w u e)
      ]
]
