-- ===== src/Examples/Messages.antt =====
-- Messages: the theorems at concrete ones.
use teachserver.Base.{◌≡◌, refl, true, false, none, some, [], ◌∷◌, ◌++◌, arith}
use teachserver.StdMap
use teachserver.StdMap.{keys}
use teachserver.Protocol.{code}
use teachserver.Protocol.Command.{ct_common_resume, st_common_resume, st_lock_student}
use teachserver.Single.{get_fd, block}
use teachserver.Room
use teachserver.Manager
use teachserver.Server.{Server}
use teachserver.Post.{post_teacher_to_all_student}
use teachserver.Post.Students.Whole.{
  AllServed, post_teacher_to_all_student-delivers, post_teacher_to_all_student-faults,
}
use teachserver.Handler.Forward.{Handler}
use teachserver.Dispatch.{init_handlers}
use teachserver.Dispatch.Routes.{work_step-routes, work_step-refuses}
use teachserver.Dispatch.Work.{work_step}
use teachserver.Evloop.{accept_cb}
use teachserver.System.{System, step}
use teachserver.System.Relay.{step-handles}
use teachserver.System.Holdings.{Passing, at_start, connected, handled, holdings, Passing-holdings}
use teachserver.Examples.{mailbox, from, env, server, room_with, pupils, three_pupils}

-- The handlers of handler/HandleRainbowValley.cpp, as parameters.
abbrev idle : Handler
idle e p w = some w

abbrev resume_server : Server
resume_server = server (mailbox 20 (code ct_common_resume) (λ i. i) (2 ∷ 3 ∷ []) (1 ∷ [])) pupils

work_step-routes_example :
    (w' : Server) × (work_step (init_handlers idle idle) env resume_server ≡ some (true, w'))
    × (w'.single.recvqueue ≡ [])
    × (w'.single.sendqueue ≡ resume_server.single.sendqueue ++ 1 ∷ [])
    × (get_fd 1 w'.single ≡ 8)
    × (block 1 w'.single ≡ record (block 1 resume_server.single) { c_type = code st_common_resume })
    × ((w'.single.bufs 1).used ≡ 20)
    × (w'.single.bufpool ≡ resume_server.single.bufpool)
    × (w'.room_map ≡ resume_server.room_map)
unfolding code Manager.get_room_by_fd Room.get_room_by_fd StdMap.find
work_step-routes_example =
    work_step-routes idle idle env resume_server 1 1 [] ct_common_resume st_common_resume 5
      (room_with pupils) refl refl (ground arith) (ground arith) refl refl refl

-- A client in no room.
abbrev foreign_server : Server
foreign_server = record resume_server { single = from 30 resume_server.single }

work_step-refuses_example :
    work_step (init_handlers idle idle) env foreign_server
    ≡ some (
      true,
      record foreign_server {
        single = record foreign_server.single { recvqueue = []; bufpool = (2 ∷ 3 ∷ []) ++ 1 ∷ [] };
      },
    )
unfolding code Manager.get_room_by_fd Room.get_room_by_fd StdMap.find
work_step-refuses_example =
    work_step-refuses idle idle env foreign_server 1 1 [] ct_common_resume st_common_resume refl
      refl (ground arith) (ground arith) refl (λ k r e. absurd (ground arith))

-- A lock for the two students, with two buffers in the pool.
post_teacher_to_all_student-delivers_example :
    (w' : Server) × (post_teacher_to_all_student 1 st_lock_student resume_server ≡ some (true, w'))
    × AllServed 1 20 (code st_lock_student) (10 ∷ 11 ∷ []) (2 ∷ 3 ∷ []) [] resume_server w'
unfolding Manager.get_room_by_fd Room.get_room_by_fd StdMap.find
post_teacher_to_all_student-delivers_example =
    post_teacher_to_all_student-delivers 1 st_lock_student resume_server 5 (room_with pupils)
      (2 ∷ 3 ∷ []) [] (ground arith) refl refl refl (ground arith) (ground arith) (ground arith)

abbrev crowded_server : Server
crowded_server = server resume_server.single three_pupils

post_teacher_to_all_student-faults_example :
    post_teacher_to_all_student 1 st_lock_student crowded_server ≡ none
unfolding Manager.get_room_by_fd Room.get_room_by_fd StdMap.find
post_teacher_to_all_student-faults_example =
    post_teacher_to_all_student-faults 1 st_lock_student crowded_server 5 (room_with three_pupils)
      (ground arith) refl (ground arith)

-- A type that no handler has.
abbrev unknown_server : Server
unknown_server = server (mailbox 8 12345 (λ i. i) [] (1 ∷ [])) pupils

-- A client connects, and the teacher's message is handled.
abbrev busy : System
busy = record {
  loop = record { io = λ fd. false; lasttime = λ fd. 0; clientcount = 1 };
  server = resume_server;
}

passes : (t : System) × Passing idle idle busy t
unfolding code Manager.get_room_by_fd Room.get_room_by_fd StdMap.find step accept_cb
passes =
    let ran =
      work_step-routes idle idle env resume_server 1 1 [] ct_common_resume st_common_resume 5
        (room_with pupils) refl refl (ground arith) (ground arith) refl refl refl in
    (
      _,
      handled env 1 1 [] ct_common_resume st_common_resume (connected (some 12) 50 at_start refl)
          refl refl (ground arith) (ground arith) refl
          (step-handles idle idle env _ resume_server ran.0 ran.1),
    )

Passing-holdings_example : holdings passes.0.server.single ≡ holdings resume_server.single
Passing-holdings_example = Passing-holdings idle idle busy passes.0 passes.1
