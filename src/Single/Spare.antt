-- ===== src/Single/Spare.antt =====
-- Single.h, PoolT.h, QueueT.h: the buffers that can still come to a new message.
use teachserver.Base.{ℕ, ◌+◌, ◌≡◌, refl, ◌≢◌, some, [], ◌∷◌, arith, length, length-append, put_u32}
use teachserver.QueueT.{enqueue}
use teachserver.Single.{
  Single, null, block, with_block, pool_malloc, pool_free, send_enqueue, set_fd, set_size, set_len,
  set_type, reset, write_data, copy_object,
}

-- The buffers that can still come to a new message.
unfoldable pub spare : Single → ℕ
spare s = length s.bufpool + length s.sendqueue

pub spare-pool_malloc :
    (s : Single) → (pool_malloc s).0 ≢ null → spare (pool_malloc s).1 + 1 ≡ spare s
unfolding spare pool_malloc
spare-pool_malloc s h = ground arith

module _ (p : ℕ) (s : Single) where
  pub spare-send_enqueue : spare (send_enqueue p s) ≡ spare s + 1
  unfolding spare send_enqueue enqueue
  spare-send_enqueue = ground (arith, length-append s.sendqueue (p ∷ []))

  pub spare-pool_free : spare (pool_free p s) ≡ spare s + 1
  unfolding spare pool_free enqueue
  spare-pool_free = ground (arith, length-append s.bufpool (p ∷ []))

  pub spare-write_data :
      (n : ℕ) (src : ℕ → ℕ) (s' : Single) → write_data p n src s ≡ some s' → spare s' ≡ spare s
  unfolding spare write_data
  spare-write_data n src s' h = ground (arith, h)

-- A message that is addressed, queued.
pub spare-addressed :
    (p fd len : ℕ) (s : Single)
    → spare (send_enqueue p (set_fd p fd (set_size p len s))) ≡ spare s + 1
unfolding spare set_size set_fd
spare-addressed p fd len s = spare-send_enqueue p (set_fd p fd (set_size p len s))

pub spare-typed :
    (p len type : ℕ) (s : Single) → spare (set_type p type (set_len p len s)) ≡ spare s
unfolding spare set_type set_len
spare-typed p len type s = refl

pub spare-copy_object :
    (dst src n : ℕ) (s s' : Single) → copy_object dst src n s ≡ some s' → spare s' ≡ spare s
unfolding copy_object spare
spare-copy_object dst src n s s' h = ground (arith, h)

pub spare-freed : (p : ℕ) (s : Single) → spare (pool_free p (reset p s)) ≡ spare s + 1
unfolding reset spare
spare-freed p s = spare-pool_free p (reset p s)

pub spare-numbered :
    (p n : ℕ) (s : Single)
    → spare (with_block p (record (block p s) { body = put_u32 (block p s).body 0 n }) s) ≡ spare s
unfolding spare
spare-numbered p n s = refl
