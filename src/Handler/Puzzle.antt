-- ===== src/Handler/Puzzle.antt =====
-- handler/HandlePuzzle.cpp: the puzzle game.
use teachserver.Base.{◌+◌, none, some, ◌>>=◌, ◌==◌, if◌then◌else◌, put_u32}
use teachserver.Protocol.{code, msg_head_len}
use teachserver.Protocol.Command.{st_puzzle_game_start, st_puzzle_update_pic}
use teachserver.Single.{block, with_block, get_fd, set_fd, set_size, set_type, send_enqueue}
use teachserver.Room
use teachserver.Room.Games.{puzzle_start, end_puzzle_by_fd}
use teachserver.Room.Score.{puzzle_end}
use teachserver.Server.{with_single, with_room, free, room_of}
use teachserver.Post.{post_teacher_to_all_student}
use teachserver.Handler.Forward.{Handler}

-- The descriptor is read from the buffer after it went back to the pool.
unfoldable pub handle_puzzle_game_start : Handler
unfolding post_teacher_to_all_student puzzle_start
handle_puzzle_game_start env p w = do
  (sent, w') ← post_teacher_to_all_student p st_puzzle_game_start w
  elim (room_of p w') [
    | none ↦ some w'
    | some (k, room) ↦ some (with_room k (puzzle_start env.now room) w')
  ]

unfoldable pub handle_puzzle_end_game : Handler
unfolding puzzle_end end_puzzle_by_fd
handle_puzzle_end_game env p w = elim (room_of p w) [
  | none ↦ some (free p w)
  | some (k, room) ↦
      let fd = get_fd p w.single in
      if fd == room.teacher_fd
      then (do
        (room', s) ← puzzle_end env.ld env.now room w.single
        some (free p (with_room k room' (record w { single = s }))))
      else some (free p (with_room k (end_puzzle_by_fd env.now fd room) w))
]

-- struct sPuzzleUpdatePic: student_id, which becomes 1, and pic_idx.
unfoldable pub handle_puzzle_update_pic : Handler
unfolding set_type set_fd set_size send_enqueue Room.get_student_by_fd code
handle_puzzle_update_pic env p w =
    let w1 = with_single (set_type p (code st_puzzle_update_pic)) w in
    elim (room_of p w1) [
      | none ↦ some (free p w1)
      | some (k, room) ↦ elim (Room.get_student_by_fd (get_fd p w1.single) room) [
        | none ↦ some (free p w1)
        | some student ↦
            let b = block p w1.single in
            let s = with_block p (record b { body = put_u32 b.body 0 1 }) w1.single in
            let s' = set_size p (msg_head_len + 8) (set_fd p room.white_fd s) in
            some (record w1 { single = send_enqueue p s' })
      ]
    ]
