-- ===== src/Dispatch/Routes.antt =====
-- The messages of the teacher that the whiteboard shows, end to end: from the receive queue through
-- the table of handlers to the send queue.
use teachserver.Base.{
  ℕ, refl, ◌≡◌, ◌≢◌, ap, ◌∙◌, true, some, List, [], ◌∷◌, ◌++◌, arith, get_elem?, All, All-get_elem?,
}
use teachserver.StdMap
use teachserver.StdMap.{StdMap}
use teachserver.Protocol.{CommandType, code}
use teachserver.Protocol.Command.{
  ct_common_playor_pause, ct_common_resume, st_common_resume, ct_common_stop, st_common_stop,
  ct_show_sprite_animation, st_show_sprite_animation, ct_show_sprite_control,
  st_show_sprite_control, ct_control_level, st_control_level, ct_exercise_game_start,
  st_exercise_game_start, ct_exercise_play, st_exercise_play, ct_exercise_pause, st_exercise_pause,
  ct_exercise_stop, st_exercise_stop, ct_exercise_game_end, st_exercise_game_end,
  ct_cartoon_game_start, st_cartoon_game_start, ct_cartoon_play, st_cartoon_play, ct_cartoon_pause,
  st_cartoon_pause, ct_cartoon_stop, st_cartoon_stop, ct_cartoon_game_end, st_cartoon_game_end,
  ct_build_house_cai_hong_xiao_wu, st_build_house_cai_hong_xiao_wu, ct_build_house_cai_hong_gu,
  st_build_house_cai_hong_gu, ct_build_house_xiao_guai_wu, st_build_house_xiao_guai_wu,
  ct_build_house_mu_bu, st_build_house_mu_bu, ct_build_house_operator_demo,
  st_build_house_operator_demo, ct_build_house_single_mode, st_build_house_single_mode,
  ct_build_house_group_mode, st_build_house_group_mode, ct_build_house_game_end,
  st_build_house_game_end, ct_build_house_email_tibet, st_build_house_email_tibet,
  ct_build_house_email_america, st_build_house_email_america, ct_build_house_activation,
  st_build_house_activation, ct_build_house_role, st_build_house_role, ct_build_house_stamp,
  st_build_house_stamp, ct_puzzle_icon_status, st_puzzle_icon_status, ct_puzzle_play,
  st_puzzle_play, ct_puzzle_pause, st_puzzle_pause,
}
use teachserver.QueueT.{enqueue, dequeue}
use teachserver.Single.{null, get_fd, block, set_fd, set_type, set_size, send_enqueue, pool_free}
use teachserver.Room.{Room}
use teachserver.Server.{Server, Env, room_of, command, free}
use teachserver.Post.{post_teacher_to_white, send_as}
use teachserver.Post.White.{post_teacher_to_white-delivers, post_teacher_to_white-refuses}
use teachserver.Handler.Forward.{
  Handler, forward, handle_common_playor_pause, handle_common_resume, handle_common_stop,
  handle_show_sprite_animation, handle_show_sprite_control, handle_control_level,
  handle_exercise_game_start, handle_exercise_play, handle_exercise_pause, handle_exercise_stop,
  handle_exercise_game_end, handle_cartoon_game_start, handle_cartoon_play, handle_cartoon_pause,
  handle_cartoon_stop, handle_cartoon_game_end, handle_build_house_cai_hong_xiao_wu,
  handle_build_house_cai_hong_gu, handle_build_house_xiao_guai_wu, handle_build_house_mu_bu,
  handle_build_house_operator_demo, handle_build_house_single_mode, handle_build_house_group_mode,
  handle_build_house_game_end, handle_build_house_email_tibet, handle_build_house_email_america,
  handle_build_house_activation, handle_build_house_role, handle_build_house_stamp,
  handle_puzzle_icon_status, handle_puzzle_play, handle_puzzle_pause,
}
use teachserver.Dispatch.{init_handlers, get_handler}
use teachserver.Dispatch.Work.{work_step}

-- The teacher's type and the type under which the whiteboard gets the message.
abbrev pub routes : List (CommandType × CommandType)
routes =
    (ct_common_playor_pause, ct_common_playor_pause)
    ∷ (ct_common_resume, st_common_resume)
    ∷ (ct_common_stop, st_common_stop)
    ∷ (ct_show_sprite_animation, st_show_sprite_animation)
    ∷ (ct_show_sprite_control, st_show_sprite_control)
    ∷ (ct_control_level, st_control_level)
    ∷ (ct_exercise_game_start, st_exercise_game_start)
    ∷ (ct_exercise_play, st_exercise_play)
    ∷ (ct_exercise_pause, st_exercise_pause)
    ∷ (ct_exercise_stop, st_exercise_stop)
    ∷ (ct_exercise_game_end, st_exercise_game_end)
    ∷ (ct_cartoon_game_start, st_cartoon_game_start)
    ∷ (ct_cartoon_play, st_cartoon_play)
    ∷ (ct_cartoon_pause, st_cartoon_pause)
    ∷ (ct_cartoon_stop, st_cartoon_stop)
    ∷ (ct_cartoon_game_end, st_cartoon_game_end)
    ∷ (ct_build_house_cai_hong_xiao_wu, st_build_house_cai_hong_xiao_wu)
    ∷ (ct_build_house_cai_hong_gu, st_build_house_cai_hong_gu)
    ∷ (ct_build_house_xiao_guai_wu, st_build_house_xiao_guai_wu)
    ∷ (ct_build_house_mu_bu, st_build_house_mu_bu)
    ∷ (ct_build_house_operator_demo, st_build_house_operator_demo)
    ∷ (ct_build_house_single_mode, st_build_house_single_mode)
    ∷ (ct_build_house_group_mode, st_build_house_group_mode)
    ∷ (ct_build_house_game_end, st_build_house_game_end)
    ∷ (ct_build_house_email_tibet, st_build_house_email_tibet)
    ∷ (ct_build_house_email_america, st_build_house_email_america)
    ∷ (ct_build_house_activation, st_build_house_activation)
    ∷ (ct_build_house_role, st_build_house_role)
    ∷ (ct_build_house_stamp, st_build_house_stamp)
    ∷ (ct_puzzle_icon_status, st_puzzle_icon_status)
    ∷ (ct_puzzle_play, st_puzzle_play)
    ∷ (ct_puzzle_pause, st_puzzle_pause)
    ∷ []

abbrev pub IsRegistered : Handler → Handler → CommandType × CommandType → Type 0
IsRegistered hn hi e = get_handler (code e.0) (init_handlers hn hi) ≡ some (λ env. forward e.0 e.1)

pub routes_registered : (hn hi : Handler) → All (IsRegistered hn hi) routes
unfolding get_handler init_handlers StdMap.insert StdMap.find handle_common_playor_pause
    handle_common_resume handle_common_stop handle_show_sprite_animation handle_show_sprite_control
    handle_control_level handle_exercise_game_start handle_exercise_play handle_exercise_pause
    handle_exercise_stop handle_exercise_game_end handle_cartoon_game_start handle_cartoon_play
    handle_cartoon_pause handle_cartoon_stop handle_cartoon_game_end
    handle_build_house_cai_hong_xiao_wu handle_build_house_cai_hong_gu
    handle_build_house_xiao_guai_wu handle_build_house_mu_bu handle_build_house_operator_demo
    handle_build_house_single_mode handle_build_house_group_mode handle_build_house_game_end
    handle_build_house_email_tibet handle_build_house_email_america handle_build_house_activation
    handle_build_house_role handle_build_house_stamp handle_puzzle_icon_status handle_puzzle_play
    handle_puzzle_pause
routes_registered hn hi = ground arith

-- The state after the message is taken from the queue.
abbrev pub taken : List ℕ → Server → Server
taken rest w = record w { single = record w.single { recvqueue = rest } }

pub work_step_found :
    (hn hi : Handler) (env : Env) (w w' : Server) (p : ℕ) (rest : List ℕ) (h : Handler)
    → w.single.recvqueue ≡ p ∷ rest
    → p ≢ null
    → (w.single.bufs p).ptr ≢ null
    → get_handler (command p w) (init_handlers hn hi) ≡ some h
    → h env p (taken rest w) ≡ some w'
    → work_step (init_handlers hn hi) env w ≡ some (true, w')
unfolding work_step dequeue
work_step_found hn hi env w w' p rest h queue nn np found run = ground arith

pub forward_match :
    (ct st : CommandType) (p : ℕ) (w : Server)
    → p ≢ null
    → command p w ≡ code ct
    → forward ct st p w ≡ some (post_teacher_to_white p st w).1
unfolding forward
forward_match ct st p w nn type = ground arith

recvqueue-post_teacher_to_white :
    (p : ℕ) (t : CommandType) (w : Server)
    → (post_teacher_to_white p t w).1.single.recvqueue ≡ w.single.recvqueue
unfolding post_teacher_to_white send_as set_fd set_type set_size send_enqueue pool_free
recvqueue-post_teacher_to_white p t w = ground arith

-- A message of the teacher under one of the listed types, in a buffer that is not NULL and has
-- memory, next in the receive queue, is queued for the whiteboard of the teacher's room under the
-- type that is listed with it; the payload and the length stay, no other message is sent, and the
-- rooms and the pool stay as they were.
pub work_step-routes :
    (hn hi : Handler) (env : Env) (w : Server) (i p : ℕ) (rest : List ℕ) (ct st : CommandType)
    (k : ℕ) (r : Room)
    → get_elem? routes i ≡ some (ct, st)
    → w.single.recvqueue ≡ p ∷ rest
    → p ≢ null
    → (w.single.bufs p).ptr ≢ null
    → command p w ≡ code ct
    → room_of p w ≡ some (k, r)
    → r.teacher_fd ≡ get_fd p w.single
    → (w' : Server) × (work_step (init_handlers hn hi) env w ≡ some (true, w'))
      × (w'.single.recvqueue ≡ rest)
      × (w'.single.sendqueue ≡ w.single.sendqueue ++ p ∷ [])
      × (get_fd p w'.single ≡ r.white_fd)
      × (block p w'.single ≡ record (block p w.single) { c_type = code st })
      × ((w'.single.bufs p).used ≡ (block p w.single).c_len)
      × (w'.single.bufpool ≡ w.single.bufpool)
      × (w'.room_map ≡ w.room_map)
work_step-routes hn hi env w i p rest ct st k r route queue nn np type room teacher =
    let registered = All-get_elem? (IsRegistered hn hi) routes i (routes_registered hn hi) route in
    let (_, sendqueue, receiver, head, used, bufpool, rooms) =
      post_teacher_to_white-delivers p st (taken rest w) k r nn room teacher in
    (
      (post_teacher_to_white p st (taken rest w)).1,
      work_step_found hn hi env w _ p rest _ queue nn np
          (ap (λ n. get_handler n (init_handlers hn hi)) type ∙ registered)
          (forward_match ct st p (taken rest w) nn type),
      recvqueue-post_teacher_to_white p st (taken rest w),
      sendqueue,
      receiver,
      head,
      used,
      bufpool,
      rooms,
    )

freed_after :
    (p : ℕ) (rest : List ℕ) (w : Server)
    → free p (taken rest w) ≡ record w {
      single = record w.single { recvqueue = rest; bufpool = w.single.bufpool ++ p ∷ [] };
    }
unfolding pool_free enqueue
freed_after p rest w = refl

-- A message under one of the listed types, in a buffer that is not NULL and has memory, next in the
-- receive queue, whose sender is not the teacher of its room, or is in no room: the receive task
-- sends nothing, the buffer goes back to the pool, and all else stays: the rooms, the send queue and
-- the memory.
pub work_step-refuses :
    (hn hi : Handler) (env : Env) (w : Server) (i p : ℕ) (rest : List ℕ) (ct st : CommandType)
    → get_elem? routes i ≡ some (ct, st)
    → w.single.recvqueue ≡ p ∷ rest
    → p ≢ null
    → (w.single.bufs p).ptr ≢ null
    → command p w ≡ code ct
    → ((k : ℕ) (r : Room) → room_of p w ≡ some (k, r) → r.teacher_fd ≢ get_fd p w.single)
    → work_step (init_handlers hn hi) env w
      ≡ some (
        true,
        record w {
          single = record w.single { recvqueue = rest; bufpool = w.single.bufpool ++ p ∷ [] };
        },
      )
work_step-refuses hn hi env w i p rest ct st route queue nn np type stranger =
    let registered = All-get_elem? (IsRegistered hn hi) routes i (routes_registered hn hi) route in
    let refused = post_teacher_to_white-refuses p st (taken rest w) nn stranger in
    work_step_found hn hi env w _ p rest _ queue nn np
      (ap (λ n. get_handler n (init_handlers hn hi)) type ∙ registered)
      (forward_match ct st p (taken rest w) nn type)
    ∙ ap (λ r. some (true, r.1)) refused
    ∙ ap (λ x. some (true, x)) (freed_after p rest w)
