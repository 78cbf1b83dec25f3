-- ===== src/System/Clients.antt =====
-- The handlers by which clients come and go and courses are chosen keep the rooms well.
use teachserver.Base.{ℕ, Option, some, List, [], ◌∷◌, arith, Option-cases, inl, inr, get_u32}
use teachserver.StdMap
use teachserver.StdMap.{StdMap, keys}
use teachserver.StdMap.Laws.{insert-IsOrdered, erase-IsOrdered}
use teachserver.Single.{get_fd}
use teachserver.Database.{CourseRow}
use teachserver.Student.{Student}
use teachserver.Room
use teachserver.Room.{Room}
use teachserver.Manager
use teachserver.Server.{room_of, body, c_str}
use teachserver.Handler.Account
use teachserver.Handler.Classroom
use teachserver.System.Ordered.{
  IsSound, Keeps, get_room_by_fd-IsSound, get_room_by_name-IsSound, find-IsSound, assign-IsWell,
}
use teachserver.System.Games.{with_students-IsSound}

pub reset-IsSound : (k : ℕ) (r : Room) → IsSound k r → IsSound k (Room.reset r)
unfolding Room.reset
reset-IsSound k r u = record { id = u.id; students = tt; groups = u.groups; puzzles = u.puzzles }

add_student-IsSound :
    (k fd : ℕ) (x : Option Student) (r : Room) → IsSound k r → IsSound k (Room.add_student fd x r)
unfolding Room.add_student
add_student-IsSound k fd x r u = elim (Option-cases (StdMap.find fd r.student_map)) [
  | inl e ↦ ground (
    arith,
    with_students-IsSound k r (StdMap.insert fd x r.student_map) u
        (insert-IsOrdered fd x r.student_map u.students),
  )
  | inr (old, e) ↦ ground (
    arith,
    with_students-IsSound k r (StdMap.insert fd x (StdMap.erase fd r.student_map)) u
        (insert-IsOrdered fd x _ (erase-IsOrdered fd r.student_map u.students)),
  )
]

add_courses-IsSound :
    (k : ℕ) (rows : List CourseRow) (r : Room)
    → IsSound k r
    → IsSound k (Account.add_courses rows r)
unfolding Account.add_courses Room.add_course
add_courses-IsSound k [] r u = u
add_courses-IsSound k (row ∷ rows) r u =
    add_courses-IsSound k rows _
      (record { id = u.id; students = u.students; groups = u.groups; puzzles = u.puzzles })

pub handle_logout_class_room-Keeps : Keeps Classroom.handle_logout_class_room
unfolding Classroom.handle_logout_class_room
handle_logout_class_room-Keeps ks env p w w' u h = elim (Option-cases (room_of p w)) [
  | inl e ↦ ground arith
  | inr ((k, r), e) ↦ ground (
    arith,
    assign-IsWell k (Room.reset r) w.room_map
        (reset-IsSound k r (get_room_by_fd-IsSound _ k r w.room_map u.sound e)) u,
  )
]

taken-IsSound :
    (k fd : ℕ) (teacher class : List ℕ) (r : Room)
    → IsSound k r
    → IsSound k
        (Room.set_class_name class (Room.set_teacher_name teacher (Room.set_teacher_fd fd r)))
unfolding Room.set_class_name Room.set_teacher_name Room.set_teacher_fd
taken-IsSound k fd teacher class r u = record {
  id = u.id;
  students = u.students;
  groups = u.groups;
  puzzles = u.puzzles;
}

pub white-IsSound : (k fd : ℕ) (r : Room) → IsSound k r → IsSound k (Room.set_white_fd fd r)
unfolding Room.set_white_fd
white-IsSound k fd r u = record {
  id = u.id;
  students = u.students;
  groups = u.groups;
  puzzles = u.puzzles;
}

pub handle_login_class_room-Keeps : Keeps Classroom.handle_login_class_room
unfolding Classroom.handle_login_class_room
handle_login_class_room-Keeps ks env p w w' u h = elim (Option-cases (c_str (body p w) 44 20)) [
  | inl e ↦ absurd (ground arith)
  | inr (name, e) ↦ elim (Option-cases (Manager.get_room_by_name name w.room_map)) [
    | inl f ↦ ground arith
    | inr ((k, r), f) ↦
        let v = get_room_by_name-IsSound name k r w.room_map u.sound f in
        elim (Option-cases (c_str (body p w) 4 20)) [
          | inl g ↦ ground arith
          | inr (teacher, g) ↦ elim (Option-cases (c_str (body p w) 24 20)) [
            | inl i ↦ ground arith
            | inr (class, i) ↦ ground (
              arith,
              assign-IsWell k _ w.room_map (taken-IsSound k (get_fd p w.single) teacher class r v)
                  u,
            )
          ]
        ]
  ]
]

pub handle_selected_class_room-Keeps : Keeps Classroom.handle_selected_class_room
unfolding Classroom.handle_selected_class_room Manager.get_room
handle_selected_class_room-Keeps ks env p w w' u h =
    let fd = get_fd p w.single in
    let id = get_u32 (body p w) 0 in
    elim (Option-cases (StdMap.find id w.room_map)) [
      | inl e ↦ ground arith
      | inr (r, e) ↦
          let v = find-IsSound id r w.room_map u.sound e in
          let student = some (Classroom.new_student env.fresh) in
          ground (
            arith,
            assign-IsWell id (Room.set_white_fd fd r) w.room_map (white-IsSound id fd r v) u,
            assign-IsWell id (Room.add_student fd student r) w.room_map
                (add_student-IsSound id fd student r v) u,
          )
    ]

clear-IsSound : (k : ℕ) (r : Room) → IsSound k r → IsSound k (Room.clear_all_course r)
unfolding Room.clear_all_course
clear-IsSound k r u = record {
  id = u.id;
  students = u.students;
  groups = u.groups;
  puzzles = u.puzzles;
}

pub handle_set_course_group-Keeps : Keeps Account.handle_set_course_group
unfolding Account.handle_set_course_group
handle_set_course_group-Keeps ks env p w w' u h = elim (Option-cases (c_str (body p w) 0 20)) [
  | inl e ↦ absurd (ground arith)
  | inr (grade, e) ↦ elim (Option-cases (c_str (body p w) 20 20)) [
    | inl f ↦ absurd (ground arith)
    | inr (group, f) ↦ elim (Option-cases (env.db.select_used_course grade group)) [
      | inl g ↦ ground arith
      | inr (rows, g) ↦ elim (Option-cases (room_of p w)) [
        | inl i ↦ ground arith
        | inr ((k, r), i) ↦
            let v = get_room_by_fd-IsSound _ k r w.room_map u.sound i in
            let v' = add_courses-IsSound k rows _ (clear-IsSound k r v) in
            ground (arith, assign-IsWell k _ w.room_map v' u)
      ]
    ]
  ]
]
