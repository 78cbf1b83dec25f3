-- ===== src/Examples/Running.antt =====
-- The running server: the theorems at a room that was loaded and a client who comes and goes.
use teachserver.Base.{
  length, Bool, true, ◌∙◌, ℕ, ◌≡◌, refl, Option, none, some, List, [], ◌∷◌, ◌++◌, arith, false,
  get_u32, inl, ◌==◌, if◌then◌else◌, All,
}
use teachserver.StdMap
use teachserver.StdMap.{StdMap, keys}
use teachserver.Protocol.{code, client_code}
use teachserver.Protocol.Command.{st_show_sprite_animation, ct_show_sprite_animation}
use teachserver.Single.{block, get_fd}
use teachserver.Room
use teachserver.Room.{Room, new_room, add_student}
use teachserver.Room.Notify
use teachserver.Room.Score.{as_bytes}
use teachserver.Manager
use teachserver.Manager.{RoomRow}
use teachserver.Server.{Server, free, with_single, with_room}
use teachserver.Handler.Forward.{Handler}
use teachserver.Dispatch.{init_handlers, get_handler, handlers}
use teachserver.SendTask.Delivery.{wire}
use teachserver.SendTask.{SendAnswer, wrote, again}
use teachserver.Evloop.{Loop, close_fd}
use teachserver.Evloop.Receive.{arrivals}
use teachserver.QueueT.{enqueue}
use teachserver.Single
use teachserver.Handler.Classroom.{handle_selected_class_room, new_student}
use teachserver.System.{System, Event, arrives, handles, sends, step, run}
use teachserver.System.Ordered.{IsWell, Keeps}
use teachserver.System.Relay.{IsRelayed, run-relays, step-handles}
use teachserver.Dispatch.Laws.{entry, get_handler-init_handlers}
use teachserver.Dispatch.Routes.{work_step_found}
use teachserver.System.Table.{nothing-Keeps}
use teachserver.System.Reach.{Reach, at_start, after, Reach-IsWell}
use teachserver.System.Rooms.{Reach-close_fd, HasOneRole}
use teachserver.Examples.{mailbox, from, server, pupils, env, room_with}

abbrev loop : Loop
loop = record { io = λ fd. false; lasttime = λ fd. 0; clientcount = 1 }

-- The two handlers that are parameters.
abbrev quiet : Handler
quiet outside p w = some w

abbrev pub classroom : System
classroom = record { loop = loop; server = server (mailbox 0 0 (λ i. 0) (1 ∷ 2 ∷ []) []) pupils }

-- The teacher's message of the type 200, 10 bytes in four pieces, and a socket that takes 4 bytes, then
-- none, then 6.
abbrev heads : List (List ℕ)
heads = (10 ∷ 0 ∷ []) ∷ (0 ∷ 0 ∷ []) ∷ []

abbrev bodies : List (List ℕ)
bodies = (200 ∷ []) ∷ (0 ∷ 0 ∷ 0 ∷ 65 ∷ 66 ∷ []) ∷ []

abbrev line : List SendAnswer
line = wrote 4 ∷ again ∷ wrote 6 ∷ []

abbrev arrival : Event
arrival = arrives 7 50 (arrivals heads (arrivals bodies []))

run-relays_example :
    (before after : System) × (run
        (init_handlers quiet quiet)
        (arrival ∷ handles env ∷ [])
        classroom
      ≡ some ([], before))
    × IsRelayed st_show_sprite_animation
        (200 ∷ 0 ∷ 0 ∷ 0 ∷ 65 ∷ 66 ∷ [])
        (block 1 classroom.server.single)
        (block 1 before.server.single)
    × (length (wire 1 before.server.single) ≡ 10)
    × (run (init_handlers quiet quiet) (arrival ∷ handles env ∷ sends line ∷ []) classroom
        ≡ some (record { fd = 8; buf = 1; bytes = wire 1 before.server.single } ∷ [], after))
    × (after.server.single.bufpool ≡ (2 ∷ []) ++ 1 ∷ [])
    × (after.server.single.recvqueue ≡ [])
    × (after.server.single.sendqueue ≡ [])
    × (after.server.room_map ≡ (5, room_with pupils) ∷ [])
unfolding get_u32 as_bytes code Manager.get_room_by_fd Room.get_room_by_fd StdMap.find
run-relays_example =
    run-relays quiet quiet 7 50 1 (2 ∷ []) heads bodies env line 3 ct_show_sprite_animation
      st_show_sprite_animation 5 (room_with pupils) classroom refl refl refl (ground arith)
      (ground arith) (ground arith) (ground arith) refl refl (ground arith) (ground arith)
      (ground arith) refl refl refl refl (ground arith) (ground arith)

-- A server that has loaded one room, with a message of the client 10 that chooses that room.
abbrev rows : List RoomRow
rows =
    record {
      classroom_id = 5;
      classroom_name = 82 ∷ [];
      white_board = [];
      unset_teacher_fd = 7;
      unset_white_fd = 8;
    }
    ∷ []

abbrev choice : ℕ → ℕ
choice i = if i == 0 then 5 else if i == 4 then 1 else 0

abbrev loaded : System
loaded = record {
  loop = loop;
  server = record {
    single = from 10 (mailbox 16 180 choice (2 ∷ 3 ∷ []) (1 ∷ []));
    room_map = (Manager.init (some rows) []).0;
  };
}

-- The room with the client 10 in it, and the state after the message is handled.
abbrev room_joined : Room
room_joined = Room.add_student 10 (some (new_student 900)) (new_room 5 (82 ∷ []) [] 7 8)

abbrev handled : Server
handled = free 1 (
    with_single (Single.reset 1) (
      with_room 5 room_joined
        (record loaded.server { single = record loaded.server.single { recvqueue = [] } })))

abbrev joined : System
joined = record { loop = loop; server = handled }

choice_handler : get_handler 180 (init_handlers quiet quiet) ≡ some handle_selected_class_room
unfolding entry handlers code
choice_handler = get_handler-init_handlers quiet quiet 180 ∙ refl

choice_handled :
    handle_selected_class_room env 1
      (record loaded.server { single = record loaded.server.single { recvqueue = [] } })
    ≡ some handled
unfolding handle_selected_class_room client_code StdMap.find StdMap.insert Manager.get_room_by_fd
    Room.get_room_by_fd Manager.get_room Manager.init Manager.load_rooms new_room get_u32
choice_handled = refl

joins : step (init_handlers quiet quiet) (handles env) loaded ≡ some ([], joined)
joins = step-handles quiet quiet env loop loaded.server handled (
    work_step_found quiet quiet env loaded.server handled 1 [] handle_selected_class_room refl
      (ground arith) (ground arith) choice_handler choice_handled)

quiet-Keeps : Keeps quiet
quiet-Keeps = nothing-Keeps

reached : Reach (init_handlers quiet quiet) loaded joined
reached = after (handles env) loaded joined [] at_start joins

Reach-IsWell_example : IsWell (keys loaded.server.room_map) joined.server.room_map
Reach-IsWell_example =
    Reach-IsWell quiet quiet rows loaded joined quiet-Keeps quiet-Keeps refl reached

-- The client 10 leaves again.
abbrev closed_of : Option (Loop × Server) → Loop × Server
closed_of none = (loop, loaded.server)
closed_of (some r) = r

abbrev left : Loop × Server
left = closed_of (close_fd 10 joined.loop joined.server)

abbrev returned : Option (Loop × Server) → Bool
returned none = false
returned (some r) = true

closed_as : (o : Option (Loop × Server)) → returned o ≡ true → o ≡ some (closed_of o)
closed_as none h = cc
closed_as (some r) h = refl

leaves : close_fd 10 joined.loop joined.server ≡ some (left.0, left.1)
unfolding StdMap.insert StdMap.find StdMap.assign StdMap.erase Manager.init Manager.load_rooms
    new_room Room.add_student new_student Single.reset Single.pool_free enqueue close_fd
    Manager.del_client Notify.del_client Notify.update_all_student_status Notify.mark_offline
    Notify.collect_status Notify.post_status Single.pool_malloc Single.set_len Single.set_type
leaves = closed_as (close_fd 10 joined.loop joined.server) refl

roles : All (HasOneRole 10) joined.server.room_map
unfolding StdMap.insert StdMap.find StdMap.assign Manager.init Manager.load_rooms new_room
    Room.add_student Single.reset Single.pool_free
roles = (inl (ground arith), tt)

Reach-close_fd_example :
    (Manager.get_room_by_fd 10 left.1.room_map ≡ none)
    × (left.0.io 10 ≡ false)
    × (keys left.1.room_map ≡ keys loaded.server.room_map)
Reach-close_fd_example =
    Reach-close_fd quiet quiet rows loaded joined 10 left.0 left.1 quiet-Keeps quiet-Keeps refl
      reached (ground arith) roles leaves
