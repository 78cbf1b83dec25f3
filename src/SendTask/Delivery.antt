-- ===== src/SendTask/Delivery.antt =====
-- SendTask.cpp: a queued buffer is written whole and goes back to the pool.
use teachserver.Base.{
  ℕ, ◌+◌, ◌-◌, ◌≤◌, ◌<◌, ◌≡◌, ◌≢◌, refl, some, List, [], ◌∷◌, ◌++◌, arith, count-append, inl, inr,
  length, zero, suc, memory_bytes, memory_bytes_join, ◌⊎◌,
}
use teachserver.QueueT.{dequeue}
use teachserver.Single.{Single, null, get_fd, block, reset, pool_free}
use teachserver.Single.Ledger.{held}
use teachserver.SendTask.{
  SendAnswer, wrote, again, broken, Sent, write_loop, byte_at, bytes_left, send_step,
}

-- The answers of a connection that stays: no call writes more than it was given, some calls may have
-- to be repeated, and together they take all that is left.
abbrev pub TakesAll : ℕ → List SendAnswer → Type 0
TakesAll left [] = left ≡ 0
TakesAll left (wrote n ∷ answers) = (n ≤ left) × TakesAll (left - n) answers
TakesAll left (again ∷ answers) = TakesAll left answers
TakesAll left (broken ∷ answers) = ⊥

pub write_loop_all :
    (answers : List SendAnswer) (m : ℕ → ℕ) (ptr left : ℕ)
    → TakesAll left answers
    → write_loop answers m ptr left ≡ some (memory_bytes m ptr left)
unfolding write_loop memory_bytes
write_loop_all [] m ptr left h = ground arith
write_loop_all (wrote n ∷ answers) m ptr left h =
    let joined = memory_bytes_join m ptr n (left - n) in
    let whole : (n + (left - n) ≡ left) = omega (arith, h.0) in
    ground (arith, write_loop_all answers m (ptr + n) (left - n) h.1, joined, whole)
write_loop_all (again ∷ answers) m ptr left h = ground (arith, write_loop_all answers m ptr left h)
write_loop_all (broken ∷ answers) m ptr left h = absurd h

-- The bytes of a buffer that are in use, as they lie in memory.
abbrev pub wire : ℕ → Single → List ℕ
wire p s = memory_bytes (byte_at (block p s)) 0 (s.bufs p).used

pub length-memory_bytes : (m : ℕ → ℕ) (o n : ℕ) → length (memory_bytes m o n) ≡ n
unfolding memory_bytes
length-memory_bytes m o zero = refl
length-memory_bytes m o (suc n) = ground (arith, length-memory_bytes m (o + 1) n)

-- Over a connection that takes all bytes, however it splits them, the first buffer of the queue,
-- which is not NULL and has a descriptor other than 0 and fewer than 2^31 bytes, reaches its
-- client: the bytes on the wire are the buffer's in use, from the first to the last, each once and in
-- order. Then its memory is cleared, and it is the last in the pool; the other buffers stay in
-- the queue.
pub send_step-delivers :
    (answers : List SendAnswer) (s : Single) (p : ℕ) (rest : List ℕ)
    → s.sendqueue ≡ p ∷ rest
    → p ≢ null
    → get_fd p s ≢ 0
    → (s.bufs p).used < 2147483648
    → TakesAll (s.bufs p).used answers
    → (s' : Single) × (send_step answers s
        ≡ some (record { fd = get_fd p s; buf = p; bytes = wire p s } ∷ [], s'))
      × (s'.sendqueue ≡ rest)
      × (s'.bufpool ≡ s.bufpool ++ p ∷ [])
      × (s'.recvqueue ≡ s.recvqueue)
      × (block p s' ≡ record { c_len = 0; c_type = 0; body = λ _. 0 })
unfolding send_step dequeue bytes_left pool_free reset
send_step-delivers answers s p rest queue nn fd small takes = (
  pool_free p (reset p (record s { sendqueue = rest })),
  ground (arith, write_loop_all answers (byte_at (block p s)) 0 (s.bufs p).used takes),
  refl,
  refl,
  refl,
  ground arith,
)

-- The rounds by what stands in the queue.
held_sent :
    (answers : List SendAnswer) (s s' : Single) (out : List Sent) (q p : ℕ) (rest : List ℕ)
    → s.sendqueue ≡ p ∷ rest
    → send_step answers s ≡ some (out, s')
    → held q s' ≡ held q s
unfolding send_step dequeue pool_free reset held
held_sent answers s s' out q p rest e h = ground (arith, count-append q s.bufpool (p ∷ []))

held_idle :
    (answers : List SendAnswer) (s s' : Single) (out : List Sent) (q : ℕ)
    → s.sendqueue ≡ []
    → send_step answers s ≡ some (out, s')
    → held q s' ≡ held q s
unfolding send_step dequeue held
held_idle answers s s' out q e h = ground arith

pub List-cases : (xs : List ℕ) → (xs ≡ []) ⊎ ((x : ℕ) × (rest : List ℕ) × (xs ≡ x ∷ rest))
List-cases [] = inl refl
List-cases (x ∷ rest) = inr (x, rest, refl)

-- Whatever `send` answers, a round that ends keeps every buffer: it stands in the pool and the
-- queues as often as before.
pub held-send_step :
    (answers : List SendAnswer) (s s' : Single) (out : List Sent) (q : ℕ)
    → send_step answers s ≡ some (out, s')
    → held q s' ≡ held q s
held-send_step answers s s' out q h = elim (List-cases s.sendqueue) [
  | inl e ↦ held_idle answers s s' out q e h
  | inr (p, rest, e) ↦ held_sent answers s s' out q p rest e h
]
