-- ===== src/SendTask.antt =====
-- SendTask.cpp: the loop that writes the queued buffers to their clients. What the calls of `send`
-- return is a parameter.
pub mod Delivery
pub mod Drain
use teachserver.Base.{
  ℕ, ◌+◌, ◌-◌, ◌%◌, Option, none, some, List, [], ◌∷◌, ◌==◌, ltb, if◌then◌else◌, put_u32,
  memory_bytes, ◌++◌, ◌>>=◌,
}
use teachserver.QueueT.{dequeue}
use teachserver.Single.{Single, Block, null, get_fd, block, reset, pool_free}

-- One call of `send`: it wrote n bytes; it failed or wrote none with EINTR or EAGAIN, after which the
-- loop goes on; or it failed or wrote none with another errno.
pub data SendAnswer : Type 0 where
  wrote : ℕ → SendAnswer
  again : SendAnswer
  broken : SendAnswer

-- The memory of a buffer as `send` reads it: the head, with its two numbers as they lie in memory,
-- and what stands behind it.
unfoldable pub byte_at : Block → ℕ → ℕ
unfolding put_u32
byte_at b i =
    if ltb i 4
    then put_u32 (λ _. 0) 0 b.c_len i
    else if ltb i 8
    then put_u32 (λ _. 0) 4 b.c_type i
    else b.body (i - 8)

-- The inner loop: the memory, `ptr` as its offset from the start of the buffer, and the bytes left. A
-- call that takes n bytes takes the n bytes at `ptr`. The result is what the calls took, in order, or
-- none where the answers end before the loop does.
unfoldable pub write_loop : List SendAnswer → (ℕ → ℕ) → ℕ → ℕ → Option (List ℕ)
unfolding memory_bytes
write_loop [] m ptr left = if left == 0 then some [] else none
write_loop (wrote n ∷ answers) m ptr left =
    let rest = write_loop answers m (ptr + n) (left - n) in
    if left == 0 then some [] else rest >>= λ later. some (memory_bytes m ptr n ++ later)
write_loop (again ∷ answers) m ptr left =
    let rest = write_loop answers m ptr left in if left == 0 then some [] else rest
write_loop (broken ∷ answers) m ptr left = some []

-- `int bytes_left = p->size ()`, as the loop's test `> 0` sees it.
unfoldable pub bytes_left : ℕ → ℕ
bytes_left n = if ltb (n % 4294967296) 2147483648 then n % 4294967296 else 0

-- What a round put on the wire: the receiver, the buffer it came from, and the bytes.
pub record Sent : Type 0 where
  pub fd : ℕ
  pub buf : ℕ
  pub bytes : List ℕ

-- One round of `work`: what it sent, and the state after it. A NULL in the queue faults, and none is
-- also the answer where `send` was not asked to the end.
unfoldable pub send_step : List SendAnswer → Single → Option (List Sent × Single)
unfolding dequeue write_loop byte_at bytes_left reset pool_free
send_step answers s = elim (dequeue s.sendqueue) [
  | none ↦ some ([], s)
  | some (p, rest) ↦
      let s' = record s { sendqueue = rest } in
      if p == null
      then none
      else if get_fd p s' == 0
      then some ([], pool_free p s')
      else elim (write_loop answers (byte_at (block p s')) 0 (bytes_left (s'.bufs p).used)) [
        | none ↦ none
        | some out ↦
            some (record { fd = get_fd p s'; buf = p; bytes = out } ∷ [], pool_free p (reset p s'))
      ]
]
