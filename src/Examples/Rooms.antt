-- ===== src/Examples/Rooms.antt =====
-- Rooms: the theorems at concrete ones.
use teachserver.Base.{
  ℕ, ◌≡◌, refl, ◌⊎◌, inr, none, some, [], ◌∷◌, ◌++◌, arith, All, ◌==◌, if◌then◌else◌, get_u32,
}
use teachserver.StdMap
use teachserver.StdMap.{StdMap, keys}
use teachserver.Protocol.{client_code}
use teachserver.Single.{Single}
use teachserver.Room
use teachserver.Room.{Room}
use teachserver.Room.Notify
use teachserver.Room.Leave.{update_all_student_status-faults}
use teachserver.Manager
use teachserver.Manager.{get_room_by_fd, del_client}
use teachserver.Manager.Lookup.{IsMember, IsStrangerIn, get_room_by_fd-first}
use teachserver.Manager.Leave.{del_client-forgets}
use teachserver.Server.{Server, body}
use teachserver.Handler.Classroom.{handle_selected_class_room}
use teachserver.Handler.Classroom.Join.{Joined, handle_selected_class_room-joins}
use teachserver.Examples.{mailbox, from, env, server, room_with, pupils, three_pupils}
use teachserver.Room.Games.{end_puzzle_by_fd}
use teachserver.Room.Score.{puzzle_end}
use teachserver.Room.Puzzles.{puzzle_end-end_puzzle_by_fd}

abbrev rooms : StdMap Room
rooms = (5, room_with pupils) ∷ []

abbrev quiet : Single
quiet = mailbox 0 0 (λ i. 0) (2 ∷ 3 ∷ []) []

get_room_by_fd-first_example :
    ((get_room_by_fd 11 rooms ≡ none) × All (IsStrangerIn 11) rooms)
    ⊎ ((before : StdMap Room) × (k : ℕ) × (r : Room) × (after : StdMap Room) × (get_room_by_fd 11
            rooms
          ≡ some (k, r))
        × (rooms ≡ before ++ (k, r) ∷ after)
        × All (IsStrangerIn 11) before
        × IsMember 11 r)
get_room_by_fd-first_example = get_room_by_fd-first 11 rooms

-- The whiteboard leaves.
abbrev dark_rooms : StdMap Room
dark_rooms = (5, record (room_with pupils) { white_fd = 0 }) ∷ []

del_client-forgets_example : (get_room_by_fd 8 dark_rooms ≡ none) × (keys dark_rooms ≡ keys rooms)
unfolding del_client Notify.del_client StdMap.find
del_client-forgets_example =
    del_client-forgets 8 rooms dark_rooms quiet quiet (ground arith)
      (record { ordered = ground arith; one_role = inr refl }, tt) refl

abbrev full_room : Room
full_room = room_with three_pupils

update_all_student_status-faults_example :
    Notify.update_all_student_status 12 full_room quiet ≡ none
update_all_student_status-faults_example =
    update_all_student_status-faults 12 full_room quiet (ground arith)

-- A new client chooses the room 5 as a student.
abbrev choice : ℕ → ℕ
choice i = if i == 0 then 5 else if i == 4 then 1 else 0

abbrev choosing : Server
choosing = server (from 30 (mailbox 16 0 choice [] [])) pupils

handle_selected_class_room-joins_example :
    (w' : Server) × (joined : Room) × (handle_selected_class_room env 1 choosing ≡ some w')
    × Joined env 1 (get_u32 (body 1 choosing) 0) (room_with pupils) joined choosing w'
unfolding get_u32 client_code Manager.get_room_by_fd Room.get_room_by_fd StdMap.find
handle_selected_class_room-joins_example =
    handle_selected_class_room-joins env 1 choosing (room_with pupils) refl refl refl

-- A client takes the room named R for the teacher named B and the class named C.
abbrev request : ℕ → ℕ
request i = if i == 4 then 66 else if i == 24 then 67 else if i == 44 then 82 else 0

abbrev taking : Server
taking = server (from 30 (mailbox 72 0 request [] [])) pupils

-- The client 10 ends a puzzle that it never had, and the teacher ends the game.
puzzle_end-end_puzzle_by_fd_example :
    puzzle_end (λ n. n ∷ []) 90 (end_puzzle_by_fd 80 10 (room_with pupils)) quiet ≡ none
unfolding StdMap.find
puzzle_end-end_puzzle_by_fd_example =
    puzzle_end-end_puzzle_by_fd (λ n. n ∷ []) 80 90 10 (room_with pupils) quiet refl
