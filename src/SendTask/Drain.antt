-- ===== src/SendTask/Drain.antt =====
-- SendTask.cpp: round after round, the send task empties its queue.
use teachserver.Base.{ℕ, ◌<◌, ◌≢◌, some, Option, List, [], ◌∷◌, ◌++◌, ◌>>=◌, All}
use teachserver.Single.{Single, Buf, null, get_fd, reset, pool_free}
use teachserver.SendTask.{SendAnswer, Sent, send_step}
use teachserver.SendTask.Delivery.{TakesAll, wire}

-- As many rounds of the loop as there are lists of answers, with all that was sent, in order.
unfoldable pub send_rounds : List (List SendAnswer) → Single → Option (List Sent × Single)
unfolding send_step
send_rounds [] s = some ([], s)
send_rounds (answers ∷ rounds) s = do
  (out, s1) ← send_step answers s
  (later, s2) ← send_rounds rounds s1
  some (out ++ later, s2)

-- Each buffer of a queue is not NULL, has a descriptor and fewer than 2^31 bytes, and its socket
-- takes them in the end; no two of them have the same memory.
abbrev pub TakesEach : (ℕ → Buf) → List ℕ → List (List SendAnswer) → Type 0
TakesEach bufs [] [] = Unit
TakesEach bufs [] (answers ∷ rounds) = ⊥
TakesEach bufs (p ∷ queue) [] = ⊥
TakesEach bufs (p ∷ queue) (answers ∷ rounds) =
    (p ≢ null)
    × ((bufs p).fd ≢ 0)
    × ((bufs p).used < 2147483648)
    × TakesAll (bufs p).used answers
    × All (λ q. (bufs q).ptr ≢ (bufs p).ptr) queue
    × TakesEach bufs queue rounds

-- What is sent for a buffer.
abbrev pub whole : Single → ℕ → Sent
whole s p = record { fd = get_fd p s; buf = p; bytes = wire p s }

-- The state after a buffer was sent.
abbrev recycled : ℕ → List ℕ → Single → Single
recycled p rest s = pool_free p (reset p (record s { sendqueue = rest }))
