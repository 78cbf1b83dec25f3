-- ===== src/Examples/Records.antt =====
-- A table with two rooms that a client asks for, and clients who come and go: the theorems at them.
use teachserver.Base.{ℕ, ◌==◌, if◌then◌else◌, ◌≡◌, refl, none, some, List, [], ◌∷◌, arith}
use teachserver.Layout.{Field, size_of}
use teachserver.Layout.Structs.{s_get_class_room_db}
use teachserver.Server.{Server, Env, c_str}
use teachserver.Post.Records.{
  classroom_db, record_base, finished_flag, post_db_record, record_rows, bound_names,
}
use teachserver.Post.Records.Whole.{IsAnswered, post_db_record-answers}
use teachserver.SendTask.{wrote}
use teachserver.Evloop.{closed}
use teachserver.System.{Event, accepts, arrives, sends, run}
use teachserver.System.Exhaustion.{run-exhausts}
use teachserver.StdMap
use teachserver.Manager
use teachserver.Room
use teachserver.Database.{CourseRow}
use teachserver.Handler.Account.{handle_set_course_group, handle_get_course_group}
use teachserver.Handler.Account.Courses.{IsTold, handle_set_course_group-tells}
use teachserver.Examples.{mailbox, server, pupils, env, empty_db, room_with}
use teachserver.Examples.Running.{classroom}

abbrev two_rooms : Env
two_rooms = record env {
  db = record empty_db { select_classroom_db = some ((65 ∷ []) ∷ (66 ∷ 67 ∷ []) ∷ []) };
}

abbrev asked : Server
asked = server (mailbox 8 0 (λ i. 0) (2 ∷ 3 ∷ 4 ∷ 5 ∷ []) []) pupils

abbrev both_rooms : List (List Field)
both_rooms = s_get_class_room_db (65 ∷ []) ∷ s_get_class_room_db (66 ∷ 67 ∷ []) ∷ []

post_db_record-answers_example :
    (w' : Server) × (post_db_record two_rooms 1 classroom_db asked ≡ some w')
    × IsAnswered 1 7
        (record_base classroom_db)
        (finished_flag classroom_db)
        4
        (2 ∷ 3 ∷ [])
        (5 ∷ [])
        both_rooms
        asked
        w'
unfolding record_rows bound_names size_of
post_db_record-answers_example =
    post_db_record-answers two_rooms 1 classroom_db asked both_rooms (2 ∷ 3 ∷ []) (5 ∷ []) 4
      (ground arith) refl (ground arith) refl refl (ground arith) (ground arith)

-- A client connects, a message goes out, and three clients leave.
abbrev leaving : List Event
leaving =
    accepts (some 12) 50
    ∷ arrives 12 51 (closed ∷ [])
    ∷ sends (wrote 4 ∷ [])
    ∷ arrives 13 52 (closed ∷ [])
    ∷ arrives 14 53 (closed ∷ [])
    ∷ []

run-exhausts_example : run [] leaving classroom ≡ none
run-exhausts_example =
    run-exhausts [] leaving classroom (refl, (refl, (refl, (refl, (refl, tt))))) (omega arith)

-- The teacher asks for the courses of the grade "A" and the group "B".
abbrev question : ℕ → ℕ
question i = if i == 0 then 65 else if i == 20 then 66 else 0

abbrev course_rows : List CourseRow
course_rows =
    record { course_id = 3; course_name = 77 ∷ [] }
    ∷ record { course_id = 4; course_name = 78 ∷ 79 ∷ [] }
    ∷ []

abbrev two_courses : Env
two_courses = record env {
  db = record empty_db { select_used_course = λ grade group. some course_rows };
}

abbrev in_lesson : Server
in_lesson = server (mailbox 48 0 question (3 ∷ []) []) pupils

handle_set_course_group-tells_example :
    (w1 w2 : Server) × (handle_set_course_group two_courses 1 in_lesson ≡ some w1)
    × (handle_get_course_group two_courses 2 w1 ≡ some w2)
    × IsTold 2 (77 ∷ 44 ∷ 78 ∷ 79 ∷ 44 ∷ []) w1 w2
unfolding c_str Manager.get_room_by_fd Room.get_room_by_fd StdMap.find
handle_set_course_group-tells_example =
    handle_set_course_group-tells two_courses 1 2 5 in_lesson (room_with pupils) (65 ∷ []) (66 ∷ [])
      course_rows (tt, tt) refl refl refl refl refl (omega arith) (ground arith) (omega arith)
