-- ===== src/System/Rooms.antt =====
-- What the rooms of a reachable state give to those who look them up or leave.
use teachserver.Base.{
  ℕ, ◌≡◌, ◌≢◌, ◌⊎◌, sym, refl, false, none, some, List, [], ◌∷◌, arith, All, Option-cases, inl, inr,
}
use teachserver.StdMap
use teachserver.StdMap.{StdMap, keys}
use teachserver.Room.{Room}
use teachserver.Manager
use teachserver.Manager.{RoomRow}
use teachserver.Manager.Leave.{IsProperIn, del_client-forgets}
use teachserver.Server.{Server}
use teachserver.Handler.Forward.{Handler}
use teachserver.Dispatch.{init_handlers}
use teachserver.Evloop.{Loop, close_fd}
use teachserver.System.{System}
use teachserver.System.Ordered.{IsSoundAt, Keeps, find-IsSound}
use teachserver.System.Reach.{Reach, Reach-IsWell}

-- The client is not whiteboard and student of one room at once.
abbrev pub HasOneRole : ℕ → ℕ × Room → Type 0
HasOneRole fd e = (fd ≢ (e.1).white_fd) ⊎ (StdMap.find fd (e.1).student_map ≡ none)

proper_rooms :
    (fd : ℕ) (rooms : StdMap Room)
    → All IsSoundAt rooms
    → All (HasOneRole fd) rooms
    → All (IsProperIn fd) rooms
proper_rooms fd [] us vs = tt
proper_rooms fd ((k, r) ∷ rooms) us vs =
    (record { ordered = us.0.students; one_role = vs.0 }, proper_rooms fd rooms us.1 vs.1)

find_by_keys :
    (id : ℕ) (m m' : StdMap Room)
    → keys m' ≡ keys m
    → StdMap.find id m ≡ none
    → StdMap.find id m' ≡ none
unfolding StdMap.find
find_by_keys id [] [] e h = refl
find_by_keys id [] (x ∷ m') e h = absurd (ground arith)
find_by_keys id (x ∷ m) [] e h = refl
find_by_keys id ((j, r) ∷ m) ((k, q) ∷ m') e h = ground (arith, find_by_keys id m m')

-- In every state that is reached, by steps that do not overlap, from the rooms of the table, closing the connection of a client,
-- where it returns, takes the client out of every room: afterwards it is found in none, its watcher
-- is gone, and no room is lost or added. The descriptor is not 0, and the client is in no room
-- whiteboard and student at once; the two handlers of the rainbow valley are taken to keep the
-- rooms in order.
pub Reach-close_fd :
    (hn hi : Handler) (rows : List RoomRow) (s t : System) (fd : ℕ) (l' : Loop) (w' : Server)
    → Keeps hn
    → Keeps hi
    → s.server.room_map ≡ (Manager.init (some rows) []).0
    → Reach (init_handlers hn hi) s t
    → fd ≢ 0
    → All (HasOneRole fd) t.server.room_map
    → close_fd fd t.loop t.server ≡ some (l', w')
    → (Manager.get_room_by_fd fd w'.room_map ≡ none)
      × (l'.io fd ≡ false)
      × (keys w'.room_map ≡ keys s.server.room_map)
unfolding close_fd
Reach-close_fd hn hi rows s t fd l' w' kn ki e r nz roles h =
    let u = Reach-IsWell hn hi rows s t kn ki e r in
    let p = proper_rooms fd t.server.room_map u.sound roles in
    elim (Option-cases (Manager.del_client fd t.server.room_map t.server.single)) [
      | inl f ↦ absurd (ground arith)
      | inr ((rooms, single), f) ↦
          let (gone, same) = del_client-forgets fd t.server.room_map rooms _ single nz p f in
          ground (arith, gone, same, u.same)
    ]

-- In every state that is reached from the rooms of the table, the room that is found under an id has
-- that id, and an id has no room exactly if it had none at the start. The two handlers of the
-- rainbow valley are taken to keep the rooms in order.
pub Reach-get_room :
    (hn hi : Handler) (rows : List RoomRow) (s t : System) (id : ℕ)
    → Keeps hn
    → Keeps hi
    → s.server.room_map ≡ (Manager.init (some rows) []).0
    → Reach (init_handlers hn hi) s t
    → ((r : Room) → Manager.get_room id t.server.room_map ≡ some r → r.room_id ≡ id)
      × (Manager.get_room id t.server.room_map ≡ none
          → Manager.get_room id s.server.room_map ≡ none)
      × (Manager.get_room id s.server.room_map ≡ none
          → Manager.get_room id t.server.room_map ≡ none)
unfolding Manager.get_room
Reach-get_room hn hi rows s t id kn ki e r =
    let u = Reach-IsWell hn hi rows s t kn ki e r in
    (
      λ r h. (find-IsSound id r t.server.room_map u.sound h).id,
      find_by_keys id t.server.room_map s.server.room_map (sym u.same),
      find_by_keys id s.server.room_map t.server.room_map u.same,
    )
