-- ===== src/PoolT.antt =====
-- PoolT.h as its threads run it: the pool of buffers, with a guard around each call.
pub mod Atomic
use teachserver.Base.{
  ℕ, ◌+◌, ◌-◌, ◌%◌, ◌≡◌, zero, suc, Option, none, some, List, [], ◌∷◌, ◌==◌, if◌then◌else◌, length,
}
use teachserver.QueueT.{enqueue}
use teachserver.Mutex.{Pthread, new_mutex, guard_begin, guard_end}
use teachserver.Single.{Single, null, pool_malloc, pool_free}

pub record PoolT (p : Pthread) : Type 0 where
  pub queue : List ℕ
  pub lock : p.Mutex
  pub size : ℕ

-- The constructor, which makes n objects; `fresh i` is the address of the object i.
unfoldable pub filled : (ℕ → ℕ) → ℕ → List ℕ
unfolding enqueue
filled fresh zero = []
filled fresh (suc n) = enqueue (fresh n) (filled fresh n)

unfoldable pub new_pool : (p : Pthread) → (ℕ → ℕ) → ℕ → PoolT p
unfolding filled
new_pool p fresh n = record { queue = filled fresh n; lock = new_mutex p; size = n }

-- size_ - queue_.size (), as an int.
unfoldable pub used_of : ℕ → List ℕ → ℕ
used_of size queue = (size + 4294967296 - length queue % 4294967296) % 4294967296

-- Where a thread stands: for each call before the guard and inside it, with its local variables.
pub data Place : Type 0 where
  idle : Place
  mallocs : Place
  in_malloc : Place
  popping : ℕ → Place
  frees : ℕ → Place
  in_free : ℕ → Place
  uses : Place
  in_used : Place
  leaving : Place

-- A call that has done its work, with its argument or its result.
pub data Call : Type 0 where
  gave : ℕ → Call
  got_back : ℕ → Call
  told : ℕ → Call

-- One move of thread i.
pub data Move {p : Pthread} (i : ℕ) (m : PoolT p)
    : Place → List Call → PoolT p → Place → Type 0 where
  calls_malloc : Move i m idle [] m mallocs
  guards_malloc :
      {l : p.Mutex}
      → guard_begin p i m.lock ≡ some l
      → Move i m mallocs [] (record m { lock = l }) in_malloc
  has_none : m.queue ≡ [] → Move i m in_malloc (gave null ∷ []) m leaving
  fronts : {x : ℕ} {rest : List ℕ} → m.queue ≡ x ∷ rest → Move i m in_malloc [] m (popping x)
  pops :
      {x y : ℕ} {rest : List ℕ}
      → m.queue ≡ y ∷ rest
      → Move i m (popping x) (gave x ∷ []) (record m { queue = rest }) leaving
  calls_free : (x : ℕ) → Move i m idle [] m (frees x)
  guards_free :
      {x : ℕ} {l : p.Mutex}
      → guard_begin p i m.lock ≡ some l
      → Move i m (frees x) [] (record m { lock = l }) (in_free x)
  pushes :
      {x : ℕ}
      → Move i m (in_free x) (got_back x ∷ []) (record m { queue = enqueue x m.queue }) leaving
  calls_used : Move i m idle [] m uses
  guards_used :
      {l : p.Mutex}
      → guard_begin p i m.lock ≡ some l
      → Move i m uses [] (record m { lock = l }) in_used
  reads_used : Move i m in_used (told (used_of m.size m.queue) ∷ []) m leaving
  leaves : Move i m leaving [] (record m { lock = guard_end p i m.lock }) idle

-- A call at once on the queue and the size, as the model of the server has it.
unfoldable pub at_once : Single → Call → List ℕ × ℕ → Option (List ℕ × ℕ)
unfolding pool_malloc pool_free used_of
at_once s (gave x) (queue, size) =
    let (q, s') = pool_malloc (record s { bufpool = queue }) in
    if q == x then some (s'.bufpool, size) else none
at_once s (got_back x) (queue, size) =
    some ((pool_free x (record s { bufpool = queue })).bufpool, size)
at_once s (told n) (queue, size) = if used_of size queue == n then some (queue, size) else none
