-- ===== src/Class/Lookup.antt =====
-- content/class.cpp against content/room.cpp.
use teachserver.Base.{ℕ, Bool, true, false, ◌≡◌, Option, none, some, arith, Option-cases, inl, inr}
use teachserver.StdMap
use teachserver.StdMap.{StdMap}
use teachserver.Room
use teachserver.Room.{Room}
use teachserver.Class
use teachserver.Class.{Class}

-- The class and the room have the same clients.
pub record SameClients (c : Class) (r : Room) : Type 0 where
  pub teacher : c.teacher_fd ≡ r.teacher_fd
  pub white : c.white_fd ≡ r.white_fd
  pub students : c.student_map ≡ r.student_map

abbrev is_some {ℓ} : {A : Type ℓ} → Option A → Bool
is_some none = false
is_some (some a) = true

found_alike :
    (c : Class) (r : Room) (fd : ℕ)
    → SameClients c r
    → is_some (Class.get_class_by_fd fd c) ≡ is_some (Room.get_room_by_fd fd r)
unfolding Class.get_class_by_fd Room.get_room_by_fd
found_alike c r fd s = elim (Option-cases (StdMap.find fd r.student_map)) [
  | inl e ↦ ground (arith, s.students, s.teacher, s.white)
  | inr (x, e) ↦ ground (arith, s.students)
]

-- A class and a room with the same clients answer alike whether a client is theirs, who the student
-- under a descriptor is, and whether a client is the teacher.
pub get_class_by_fd-get_room_by_fd :
    (c : Class) (r : Room)
    → SameClients c r
    → ((fd : ℕ) → is_some (Class.get_class_by_fd fd c) ≡ is_some (Room.get_room_by_fd fd r))
      × ((fd : ℕ) → Class.get_student_by_fd fd c ≡ Room.get_student_by_fd fd r)
      × ((fd : ℕ) → Class.get_teacher_by_fd fd c ≡ Room.is_teacher_fd fd r)
unfolding Class.get_class_by_fd Room.get_room_by_fd Class.get_student_by_fd Room.get_student_by_fd
    Class.get_teacher_by_fd Room.is_teacher_fd
get_class_by_fd-get_room_by_fd c r s =
    (λ fd. found_alike c r fd s, λ fd. rw s.students, λ fd. rw s.teacher)
