-- ===== src/Handler/Classroom/Join.antt =====
-- handler/HandleClassRoom.cpp: how a client gets into a room.
use teachserver.Base.{
  ℕ, ◌≡◌, inl, inr, none, some, [], ◌∷◌, arith, All, get_u32, ◌==◌, if◌then◌else◌,
}
use native.Mathlib.Decide.{ℕ_discrete}
use mathlib.Core.Path.{subst}
use mathlib.Core.Option.{some-injective}
use teachserver.StdMap
use teachserver.StdMap.{StdMap}
use teachserver.StdMap.Laws.{find-assign}
use teachserver.StdMap.Entries.{find-insert_new, find-insert_other}
use teachserver.Protocol.{client_code, mct_student}
use teachserver.Single
use teachserver.Single.{null, get_fd, pool_free}
use teachserver.Room
use teachserver.Room.{
  Room, add_student, set_white_fd, set_teacher_fd, set_teacher_name, set_class_name,
}
use teachserver.Manager
use teachserver.Manager.{get_room_by_fd}
use teachserver.Manager.Lookup.{IsStranger, IsStrangerIn, get_room_by_fd-first}
use teachserver.Server.{Server, Env, room_of, body, free, with_single, with_room}
use teachserver.Handler.Classroom.{new_student, handle_selected_class_room}

strangers_of_none :
    (fd : ℕ) (rooms : StdMap Room) → get_room_by_fd fd rooms ≡ none → All (IsStrangerIn fd) rooms
strangers_of_none fd rooms h = elim (get_room_by_fd-first fd rooms) [
  | inl (e, us) ↦ us
  | inr (before, k, r, after, found, split, us, m) ↦ absurd (ground (arith, h, found))
]

IsStranger-find :
    (fd id : ℕ) (room : Room) (rooms : StdMap Room)
    → All (IsStrangerIn fd) rooms
    → StdMap.find id rooms ≡ some room
    → IsStranger fd room
unfolding StdMap.find
IsStranger-find fd id room [] us h = absurd (ground arith)
IsStranger-find fd id room ((j, r) ∷ rooms) us h = elim (ℕ_discrete j id) [
  | yes e ↦ subst (IsStranger fd) (some-injective r room (ground arith)) us.0
  | no e ↦ IsStranger-find fd id room rooms us.1 (ground arith)
]

-- A client who is in no room is found in the one that it is put into.
room_joined :
    (fd id : ℕ) (room joined : Room) (rooms : StdMap Room)
    → All (IsStrangerIn fd) rooms
    → StdMap.find id rooms ≡ some room
    → Room.get_room_by_fd fd joined ≡ some joined
    → get_room_by_fd fd (StdMap.assign id joined rooms) ≡ some (id, joined)
unfolding get_room_by_fd Room.get_room_by_fd StdMap.find StdMap.assign
room_joined fd id room joined [] us h m = absurd (ground arith)
room_joined fd id room joined ((j, r) ∷ rooms) us h m =
    ground (arith, us.0.student, us.0.teacher, us.0.white, room_joined fd id room joined rooms us.1)

-- What a student's choice of a room leaves.
pub record Joined (env : Env) (p id : ℕ) (room joined : Room) (w w' : Server) : Type 0 where
  pub students :
      (fd : ℕ)
      → Room.get_student_by_fd fd joined ≡ (
          if fd == get_fd p w.single
          then some (new_student env.fresh)
          else Room.get_student_by_fd fd room)
  pub found : get_room_by_fd (get_fd p w.single) w'.room_map ≡ some (id, joined)
  pub rooms :
      (j : ℕ)
      → StdMap.find j w'.room_map ≡ (if j == id then some joined else StdMap.find j w.room_map)

-- A student who is in no room and chooses one that exists is put into it, offline and without an
-- id, and is found there when the call has returned; the other students of that room and the other rooms stay.
pub handle_selected_class_room-joins :
    (env : Env) (p : ℕ) (w : Server) (room : Room)
    → get_u32 (body p w) 4 ≡ client_code mct_student
    → room_of p w ≡ none
    → StdMap.find (get_u32 (body p w) 0) w.room_map ≡ some room
    → (w' : Server) × (joined : Room) × (handle_selected_class_room env p w ≡ some w')
      × Joined env p (get_u32 (body p w) 0) room joined w w'
unfolding handle_selected_class_room add_student Room.get_student_by_fd Manager.get_room pool_free
    Single.reset Room.get_room_by_fd
handle_selected_class_room-joins env p w room kind out there =
    let fd = get_fd p w.single in
    let id = get_u32 (body p w) 0 in
    let us = strangers_of_none fd w.room_map out in
    let u = IsStranger-find fd id room w.room_map us there in
    let student = some (new_student env.fresh) in
    let joined = add_student fd student room in
    let new = find-insert_new fd student room.student_map u.student in
    (
      free p (with_single (Single.reset p) (with_room id joined w)),
      joined,
      ground (arith, u.student),
      record {
        students =
            λ j. ground (arith, u.student, new, find-insert_other fd j student room.student_map);
        found = room_joined fd id room joined w.room_map us there (ground (arith, u.student, new));
        rooms = λ j. ground (arith, there, find-assign id j joined w.room_map);
      },
    )
