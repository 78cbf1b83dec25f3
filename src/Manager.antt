-- ===== src/Manager.antt =====
-- content/roommanager.cpp: all classrooms, by their id.
pub mod Lookup
pub mod Leave
pub mod Spare
use teachserver.Base.{
  ℕ, Bool, true, false, Option, none, some, List, [], ◌∷◌, ◌>>=◌, if◌then◌else◌, length, bytes_eq,
}
use teachserver.StdMap
use teachserver.StdMap.{StdMap}
use teachserver.Single.{Single}
use teachserver.Room
use teachserver.Room.{Room, new_room}
use teachserver.Room.Notify

-- A row of the table of classrooms, and what the constructor left in the two descriptors.
pub record RoomRow : Type 0 where
  pub classroom_id : ℕ
  pub classroom_name : List ℕ
  pub white_board : List ℕ
  pub unset_teacher_fd : ℕ
  pub unset_white_fd : ℕ

unfoldable pub load_rooms : List RoomRow → StdMap Room → StdMap Room
unfolding new_room
load_rooms [] rooms = rooms
load_rooms (row ∷ rows) rooms =
    let r =
      new_room row.classroom_id row.classroom_name row.white_board row.unset_teacher_fd
        row.unset_white_fd in
    load_rooms rows (StdMap.insert r.room_id r rooms)

-- CRoomManager::init: the rows of the query, or none where it threw. The result 0 is success.
unfoldable pub init : Option (List RoomRow) → StdMap Room → StdMap Room × Bool
unfolding load_rooms
init none rooms = (rooms, false)
init (some rows) rooms = (load_rooms rows rooms, true)

unfoldable pub get_room_count : StdMap Room → ℕ
get_room_count rooms = length rooms

unfoldable pub get_room : ℕ → StdMap Room → Option Room
get_room id rooms = StdMap.find id rooms

-- The room is given with its key, by which it is written back.
unfoldable pub get_room_by_fd : ℕ → StdMap Room → Option (ℕ × Room)
unfolding Room.get_room_by_fd
get_room_by_fd fd [] = none
get_room_by_fd fd ((k, r) ∷ rooms) = elim (Room.get_room_by_fd fd r) [
  | some found ↦ some (k, found)
  | none ↦ get_room_by_fd fd rooms
]

unfoldable pub get_room_by_name : List ℕ → StdMap Room → Option (ℕ × Room)
get_room_by_name name [] = none
get_room_by_name name ((k, r) ∷ rooms) =
    if bytes_eq name r.room_name then some (k, r) else get_room_by_name name rooms

-- Every room is asked to drop the client, whether or not it has it.
unfoldable pub del_client : ℕ → StdMap Room → Single → Option (StdMap Room × Single)
unfolding Notify.del_client
del_client fd [] s = some ([], s)
del_client fd ((k, r) ∷ rooms) s = do
  (r', s') ← Notify.del_client fd r s
  (rooms', s'') ← del_client fd rooms s'
  some ((k, r') ∷ rooms', s'')
