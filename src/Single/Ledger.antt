-- ===== src/Single/Ledger.antt =====
-- Where the buffers are: in the pool, waiting to be handled, or waiting to be sent.
use teachserver.Base.{
  ℕ, ◌+◌, ◌≡◌, ◌≢◌, refl, [], ◌∷◌, arith, count, count-append, ◌==◌, if◌then◌else◌,
}
use teachserver.Single.{
  Single, set_fd, set_size, set_len, set_type, reset, pool_malloc, pool_free, send_enqueue,
}

-- How often a buffer stands in the pool and the queues together.
unfoldable pub held : ℕ → Single → ℕ
held q s = count q s.bufpool + count q s.recvqueue + count q s.sendqueue

module _ (q p : ℕ) (s : Single) where
  pub held-pool_free : held q (pool_free p s) ≡ held q s + (if q == p then 1 else 0)
  unfolding held pool_free
  held-pool_free = ground (arith, count-append q s.bufpool (p ∷ []))

  pub held-send_enqueue : held q (send_enqueue p s) ≡ held q s + (if q == p then 1 else 0)
  unfolding held send_enqueue
  held-send_enqueue = ground (arith, count-append q s.sendqueue (p ∷ []))

  pub held-set_fd : (fd : ℕ) → held q (set_fd p fd s) ≡ held q s
  unfolding held set_fd
  held-set_fd fd = refl

  pub held-set_size : (n : ℕ) → held q (set_size p n s) ≡ held q s
  unfolding held set_size
  held-set_size n = refl

  pub held-set_len : (n : ℕ) → held q (set_len p n s) ≡ held q s
  unfolding held set_len
  held-set_len n = refl

  pub held-set_type : (t : ℕ) → held q (set_type p t s) ≡ held q s
  unfolding held set_type
  held-set_type t = refl

  pub held-reset : held q (reset p s) ≡ held q s
  unfolding held reset
  held-reset = refl

pub held-pool_malloc :
    (q : ℕ) (s : Single)
    → s.bufpool ≢ []
    → held q (pool_malloc s).1 + (if q == (pool_malloc s).0 then 1 else 0) ≡ held q s
unfolding held pool_malloc
held-pool_malloc q s h = ground arith
