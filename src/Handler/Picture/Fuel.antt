-- ===== src/Handler/Picture/Fuel.antt =====
-- handler/HandlePuzzle.cpp: the rounds that the model gives to the loop of handlePuzzle_GetPic.
use teachserver.Base.{
  ℕ, suc, zero, ◌<◌, ◌≡◌, Option-cases, inl, inr, List, [], ◌∷◌, ◌==◌, length, arith, ◌%◌, ◌+◌,
  if◌then◌else◌,
}
use teachserver.Protocol.{msg_head_len}
use teachserver.Single.{
  Single, pool_malloc, write_data, set_fd, set_size, set_len, set_type, send_enqueue,
}
use teachserver.Server.{Env}
use teachserver.Handler.Picture.{send_pieces}

-- While no buffer comes back to the pool in the meantime, more rounds than the pool has buffers change
-- nothing: the loop has ended before.
send_pieces_enough :
    (env : Env) (fd i left more : ℕ) (s : Single) (pool : List ℕ)
    → s.bufpool ≡ pool
    → length pool < left
    → length pool < more
    → send_pieces env fd i left s ≡ send_pieces env fd i more s
unfolding send_pieces pool_malloc write_data set_len set_type set_size set_fd send_enqueue
send_pieces_enough env fd i zero more s pool e a b = absurd (omega (arith, a))
send_pieces_enough env fd i (suc left) zero s pool e a b = absurd (omega (arith, b))
send_pieces_enough env fd i (suc left) (suc more) s [] e a b = ground (arith, e)
send_pieces_enough env fd i (suc left) (suc more) s (p ∷ pool) e a b =
    let s1 = (pool_malloc s).1 in
    let n = env.pic_read i in
    let len = (n + msg_head_len) % 4294967296 in
    let written = write_data p (if n == 18446744073709551615 then 0 else n) (env.pic_bytes i) s1 in
    elim (Option-cases written) [
      | inl f ↦ ground (arith, e, f)
      | inr (s2, f) ↦
          let s3 = set_size p len (set_type p 1000 (set_len p len s2)) in
          let s4 = send_enqueue p (set_fd p fd s3) in
          let rest : (s4.bufpool ≡ pool) = ground (arith, e, f) in
          ground (
            arith,
            e,
            f,
            send_pieces_enough env fd (i + 1) left more s4 pool rest (omega (arith, a))
                (omega (arith, b)),
          )
    ]
