-- ===== src/Evloop.antt =====
-- Evloop.cpp and Sock.c: accepting a client, receiving a message, and closing a connection. What
-- `select`, `recv` and `accept` return, and the time, are parameters.
pub mod Receive
pub mod Decode
pub mod Message
pub mod Broken
mod Timer
use teachserver.Base.{
  ℕ, ◌+◌, ◌-◌, ◌*◌, ◌/◌, ◌%◌, Bool, true, false, Option, none, some, List, [], ◌∷◌, ◌++◌, ◌>>=◌,
  ◌==◌, ltb, leb, ◌&&◌, if◌then◌else◌, update, get_u32, length,
}
use teachserver.Single.{Block, null, with_block, block, pool_malloc, set_fd, recv_enqueue}
use teachserver.Room.Score.{as_bytes}
use teachserver.Manager
use teachserver.Server.{Server, with_single}

-- The watchers of the connections, the time of each one's last message, and the count of clients.
pub record Loop : Type 0 where
  pub io : ℕ → Bool
  pub lasttime : ℕ → ℕ
  pub clientcount : ℕ

-- MAXFD
abbrev pub max_fd : ℕ
max_fd = 10240

-- One round of the loop in recv_n: `select` ran out of time or failed; `recv` gave bytes, at most as
-- many as it was asked for; it gave 0, or -1.
pub data RecvAnswer : Type 0 where
  idle : RecvAnswer
  chunk : List ℕ → RecvAnswer
  closed : RecvAnswer
  failed : RecvAnswer

-- What recv_n wrote to the memory, whether it returned -1, and the answers that are not used.
pub record Received : Type 0 where
  pub bytes : List ℕ
  pub failure : Bool
  pub unread : List RecvAnswer

-- `left` is the ssize_t as its 64 bits; none where the answers end before the loop does.
unfoldable pub recv_n : List RecvAnswer → ℕ → List ℕ → Option Received
recv_n [] left got =
    if left == 0 then some (record { bytes = got; failure = false; unread = [] }) else none
recv_n (idle ∷ answers) left got = some (record {
  bytes = got;
  failure = false;
  unread = if left == 0 then idle ∷ answers else answers;
})
recv_n (closed ∷ answers) left got = some (record {
  bytes = got;
  failure = false;
  unread = if left == 0 then closed ∷ answers else answers;
})
recv_n (failed ∷ answers) left got =
    if left == 0
    then some (record { bytes = got; failure = false; unread = failed ∷ answers })
    else some (record { bytes = got; failure = true; unread = answers })
recv_n (chunk cs ∷ answers) left got =
    let rest =
      recv_n answers ((left + 18446744073709551616 - length cs) % 18446744073709551616)
        (got ++ cs) in
    if left == 0
    then some (record { bytes = got; failure = false; unread = chunk cs ∷ answers })
    else rest

-- The returned number as its 64 bits.
unfoldable pub returned : Received → ℕ
returned r = if r.failure then 18446744073709551615 else length r.bytes

-- The memory of a block byte by byte, and the block that bytes are.
unfoldable pub raw : Block → ℕ → ℕ
raw b i =
    if i == 0
    then b.c_len % 256
    else if i == 1
    then b.c_len / 256 % 256
    else if i == 2
    then b.c_len / 65536 % 256
    else if i == 3
    then b.c_len / 16777216 % 256
    else if i == 4
    then b.c_type % 256
    else if i == 5
    then b.c_type / 256 % 256
    else if i == 6
    then b.c_type / 65536 % 256
    else if i == 7
    then b.c_type / 16777216 % 256
    else b.body (i - 8)

unfoldable pub of_raw : (ℕ → ℕ) → Block
of_raw m = record { c_len = get_u32 m 0; c_type = get_u32 m 4; body = λ i. m (i + 8) }

unfoldable pub put_bytes : ℕ → List ℕ → (ℕ → ℕ) → ℕ → ℕ
unfolding as_bytes
put_bytes o cs m i = if leb o i && ltb i (o + length cs) then as_bytes cs (i - o) else m i

-- The bytes that recv_n received at an offset of a buffer; none past its end.
unfoldable pub store : ℕ → ℕ → List ℕ → Server → Option Server
unfolding raw of_raw put_bytes
store p o cs w =
    if ltb (w.single.bufs p).size (o + length cs)
    then none
    else some (with_single (with_block p (of_raw (put_bytes o cs (raw (block p w.single))))) w)

-- Evloop::closefd.
unfoldable pub close_fd : ℕ → Loop → Server → Option (Loop × Server)
unfolding Manager.del_client
close_fd fd l w = do
  (rooms, s) ← Manager.del_client fd w.room_map w.single
  let l' = record l {
    io = update l.io fd false;
    clientcount = (l.clientcount + 4294967295) % 4294967296;
  }
  some (l', record { single = s; room_map = rooms })

-- Evloop::accept_cb, for what `accept` returned, none for a number below 1. A descriptor of MAXFD or
-- more is written past the end of the array.
unfoldable pub accept_cb : Option ℕ → ℕ → Loop → Option Loop
accept_cb none now l = some l
accept_cb (some fd) now l =
    if ltb fd max_fd
    then some (record l {
      io = update l.io fd true;
      lasttime = update l.lasttime fd now;
      clientcount = (l.clientcount + 1) % 4294967296;
    })
    else none

-- `*p - sizeof (unsigned int)`: the int is extended to 64 bits, and the difference wraps.
unfoldable pub body_length : ℕ → ℕ
body_length n =
    if ltb n 2147483648
    then (n + 18446744073709551612) % 18446744073709551616
    else n + 18446744069414584316

-- The second half of recv_cb: the body, once the four bytes of the length are there.
unfoldable pub recv_body : ℕ → ℕ → ℕ → List RecvAnswer → Loop → Server → Option (Loop × Server)
unfolding recv_n returned store close_fd body_length set_fd recv_enqueue
recv_body p fd now answers l w = do
  let left = body_length (block p w.single).c_len
  rest ← recv_n answers left []
  w' ← store p 4 rest.bytes w
  let l' = record l { lasttime = update l.lasttime fd now }
  let w'' = with_single (λ s. recv_enqueue p (set_fd p fd s)) w'
  if body_length (block p w'.single).c_len == returned rest
      then some (l', w'')
      else close_fd fd l w'

-- Evloop::recv_cb. With no buffer in the pool the process aborts, which is none here; a connection
-- that fails is closed, and its buffer is dropped.
unfoldable pub recv_cb : ℕ → ℕ → List RecvAnswer → Loop → Server → Option (Loop × Server)
unfolding pool_malloc recv_n returned store close_fd recv_body
recv_cb fd now answers l w =
    let (p, s) = pool_malloc w.single in
    if p == null then none else do
      head ← recv_n answers 4 []
      w' ← store p 0 head.bytes (record w { single = s })
      if returned head == 4 then recv_body p fd now head.unread l w' else close_fd fd l w'
