-- ===== src/Handler/Picture.antt =====
-- handler/HandlePuzzle.cpp: handlePuzzle_GetPic sends the picture file in pieces.
mod Fuel
use teachserver.Base.{
  ℕ, zero, suc, ◌+◌, ◌%◌, Option, some, ◌>>=◌, ◌==◌, if◌then◌else◌, length, Bool, true, false,
}
use teachserver.Protocol.{msg_head_len}
use teachserver.Single.{
  Single, null, get_fd, set_fd, set_size, set_len, set_type, write_data, pool_malloc, send_enqueue,
}
use teachserver.Server.{Env}
use teachserver.Post.Records.{send_finished}
use teachserver.Handler.Forward.{Handler}

-- The i-th round of `while (1)`: `read` gave n bytes, or a failed one (size_t) -1. The rounds are at
-- most the buffers of the pool. The flag is false where the pool ran out.
unfoldable pub send_pieces : Env → ℕ → ℕ → ℕ → Single → Option (Bool × Single)
unfolding pool_malloc write_data set_len set_type set_size set_fd send_enqueue
send_pieces env fd i zero s = some (false, s)
send_pieces env fd i (suc left) s =
    let (pp, s1) = pool_malloc s in
    let n = env.pic_read i in
    elim (pp == null) [
      | true ↦ some (false, s1)
      | false ↦ elim (n == 0) [
        | true ↦ some (true, s1)
        | false ↦ do
          let len = (n + msg_head_len) % 4294967296
          s2 ← write_data pp (if n == 18446744073709551615 then 0 else n) (env.pic_bytes i) s1
          let s3 = set_size pp len (set_type pp 1000 (set_len pp len s2))
          send_pieces env fd (i + 1) left (send_enqueue pp (set_fd pp fd s3))
      ]
    ]

unfoldable pub handle_puzzle_get_pic : Handler
unfolding send_pieces send_finished
handle_puzzle_get_pic env p w =
    let fd = get_fd p w.single in
    let fuel = suc (length w.single.bufpool) in
    if env.pic_opens
    then (do
      (finished, s) ← send_pieces env fd 0 fuel w.single
      s' ← if finished then send_finished 1 fd s else some s
      some (record w { single = s' }))
    else some w
