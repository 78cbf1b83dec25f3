-- ===== src/PoolT/Atomic.antt =====
-- PoolT.h: the guards make each call of the pool one step, whatever the threads do in between.
use teachserver.Base.{
  ℕ, ◌+◌, ◌≡◌, ◌≢◌, ◌⊎◌, inl, refl, Bool, true, false, some, List, [], ◌∷◌, ◌++◌, arith, count,
  count-append, ==-refl, head,
}
use teachserver.QueueT.{enqueue}
use teachserver.Mutex.{Pthread, IsPthread}
use teachserver.Mutex.Guarded.{Program, IsGuarded, IsAtomic, acts, Reach, Reach-acts}
use teachserver.Single.{Single, null, pool_malloc, pool_free}
use teachserver.PoolT.{
  PoolT, new_pool, filled, used_of, Place, idle, in_malloc, popping, in_free, in_used, leaving,
  Call, gave, got_back, told, Move, guards_malloc, has_none, fronts, pops, guards_free, pushes,
  guards_used, reads_used, at_once,
}

abbrev pub inside : Place → Bool
inside in_malloc = true
inside (popping x) = true
inside (in_free x) = true
inside in_used = true
inside leaving = true
inside place = false

abbrev pub Agrees : List ℕ × ℕ → Place → Type 0
Agrees (queue, size) (popping x) = head queue ≡ some x
Agrees d place = Unit {0}

abbrev pub pool_program : (p : Pthread) → Program p
pool_program p = record {
  Shared = PoolT p;
  Guarded = List ℕ × ℕ;
  Place = Place;
  Call = Call;
  mutex = λ m. m.lock;
  guarded = λ m. (m.queue, m.size);
  Move = Move;
  inside = inside;
  Agrees = Agrees;
}

module _ {p : Pthread} (law : IsPthread p) where
  open law use {owner, lock_waits, lock_takes, unlock_frees}

  Move-inside :
      {i : ℕ} {m n : PoolT p} {a b : Place} {ops : List Call}
      → Move i m a ops n b
      → (inside a ≡ true → owner m.lock ≡ some i)
      → inside b ≡ true
      → owner n.lock ≡ some i
  Move-inside {i} {m} (guards_malloc {l} e) h into = lock_takes i m.lock l e
  Move-inside {i} {m} (guards_free {l} e) h into = lock_takes i m.lock l e
  Move-inside {i} {m} (guards_used {l} e) h into = lock_takes i m.lock l e
  Move-inside mv h into = ground arith

  Move-owner :
      {i j : ℕ} {m n : PoolT p} {a b : Place} {ops : List Call}
      → Move i m a ops n b
      → (inside a ≡ true → owner m.lock ≡ some i)
      → i ≢ j
      → owner m.lock ≡ some j
      → owner n.lock ≡ some j
  Move-owner {i} {m} (guards_malloc {l} e) h ne o = ground (arith, lock_waits i m.lock l e)
  Move-owner {i} {m} (guards_free {l} e) h ne o = ground (arith, lock_waits i m.lock l e)
  Move-owner {i} {m} (guards_used {l} e) h ne o = ground (arith, lock_waits i m.lock l e)
  Move-owner mv h ne o = ground arith

  Move-queue :
      {i : ℕ} {m n : PoolT p} {a b : Place} {ops : List Call}
      → Move i m a ops n b
      → (inside a ≡ true) ⊎ (◌≡◌ {A = List ℕ × ℕ} (n.queue, n.size) (m.queue, m.size))
  Move-queue pushes = inl refl
  Move-queue (pops e) = inl refl
  Move-queue mv = ground arith

  Move-Agrees :
      {i : ℕ} {m n : PoolT p} {a b : Place} {ops : List Call}
      → Move i m a ops n b
      → Agrees (n.queue, n.size) b
  Move-Agrees (fronts e) = ground (arith, e)
  Move-Agrees mv = ground arith

  Agrees-outside : (d : List ℕ × ℕ) (a : Place) → inside a ≡ false → Agrees d a
  Agrees-outside (queue, size) a h = ground arith

  pub pool-IsGuarded : IsGuarded law (pool_program p)
  pool-IsGuarded = record {
    inside_owns = Move-inside;
    others_keep = Move-owner;
    inside_writes = Move-queue;
    move_agrees = Move-Agrees;
    outside_agrees = Agrees-outside;
  }

module _ {p : Pthread} (s : Single) where
  Move-acts :
      {i : ℕ} {m n : PoolT p} {a b : Place} {ops : List Call}
      → Move i m a ops n b
      → Agrees (m.queue, m.size) a
      → acts (at_once s) ops (m.queue, m.size) ≡ some (n.queue, n.size)
  unfolding acts at_once pool_malloc pool_free enqueue
  Move-acts (has_none e) g = ground (arith, e)
  Move-acts (pops e) g = ground (arith, e)
  Move-acts {m} reads_used g = ground (arith, ==-refl (used_of m.size m.queue))
  Move-acts mv g = ground arith

  pub pool-IsAtomic : IsAtomic (pool_program p) (at_once s)
  pool-IsAtomic = record { move_acts = Move-acts }

-- The buffers that were handed out, and those that came back, in order.
abbrev pub gives : List Call → List ℕ
gives [] = []
gives (gave x ∷ calls) = x ∷ gives calls
gives (got_back x ∷ calls) = gives calls
gives (told n ∷ calls) = gives calls

abbrev pub backs : List Call → List ℕ
backs [] = []
backs (gave x ∷ calls) = backs calls
backs (got_back x ∷ calls) = x ∷ backs calls
backs (told n ∷ calls) = backs calls

at_once-count :
    (s : Single) (q : ℕ) (calls : List Call) (queue after : List ℕ) (size size' : ℕ)
    → q ≢ null
    → acts (at_once s) calls (queue, size) ≡ some (after, size')
    → count q queue + count q (backs calls) ≡ count q (gives calls) + count q after
unfolding acts at_once pool_malloc pool_free enqueue
at_once-count s q [] queue after size size' nn e = ground (arith, e)
at_once-count s q (gave x ∷ calls) [] after size size' nn e =
    ground (arith, e, at_once-count s q calls [] after size size' nn)
at_once-count s q (gave x ∷ calls) (y ∷ queue) after size size' nn e =
    ground (arith, e, at_once-count s q calls queue after size size' nn)
at_once-count s q (got_back x ∷ calls) queue after size size' nn e = omega (
  arith,
  count-append q queue (x ∷ []),
  at_once-count s q calls (queue ++ x ∷ []) after size size' nn e,
)
at_once-count s q (told n ∷ calls) queue after size size' nn e =
    ground (arith, e, at_once-count s q calls queue after size size' nn)

-- Whatever the threads do in which order, as long as the library keeps its promises: each call of a
-- new pool does at once what the call in one step does, so that a buffer other than NULL has been
-- handed out as often as it was made and came back, less as often as it lies in the pool.
pub Reach-hands :
    {p : Pthread} (law : IsPthread p) (s : Single) (fresh : ℕ → ℕ) (n q : ℕ) (calls : List Call)
    (m : PoolT p) (places : ℕ → Place)
    → q ≢ null
    → Reach (pool_program p) (new_pool p fresh n) idle calls m places
    → (acts (at_once s) calls (filled fresh n, n) ≡ some (m.queue, m.size))
      × (count q (filled fresh n) + count q (backs calls) ≡ count q (gives calls) + count q m.queue)
unfolding new_pool
Reach-hands law s fresh n q calls m places nn r =
    let e = Reach-acts law _ (pool-IsGuarded law) (pool-IsAtomic s) refl r in
    (e, at_once-count s q calls (filled fresh n) m.queue n m.size nn e)
