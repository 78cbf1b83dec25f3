-- ===== src/ThreadPool/Tasks.antt =====
-- No task is lost and none is run twice.
use teachserver.Base.{
  ℕ, ◌+◌, ◌%◌, ◌≡◌, ◌≢◌, some, List, [], ◌∷◌, arith, count, count-append, length, ◌==◌,
  if◌then◌else◌, Option-cases, inl, inr,
}
use native.Mathlib.Decide.{ℕ_discrete}
use teachserver.StdMap
use teachserver.QueueT.{enqueue, dequeue}
use teachserver.Single.{null}
use teachserver.SendTask.Delivery.{List-cases}
use teachserver.ThreadPool.{
  ThreadPool, PoolEvent, begins, creates, notes, pushes, turns, finishes, stops, new_pool, begin,
  create, note, push_task, turn, finish, stop, pool_step, pool_run,
}

-- The tasks that threads are running.
abbrev pub running : List (ℕ × ℕ) → List ℕ
running [] = []
running ((t, p) ∷ busy) = p ∷ running busy

-- How often a task waits, runs or has run.
abbrev pub accounted : ℕ → ThreadPool → ℕ
accounted p s = count p s.task_queue + count p (running s.busy) + count p s.finished

abbrev pub pushed : List PoolEvent → List ℕ
pushed [] = []
pushed (pushes p ∷ events) = p ∷ pushed events
pushed (begins ∷ events) = pushed events
pushed (creates t ∷ events) = pushed events
pushed (notes t ∷ events) = pushed events
pushed (turns t ∷ events) = pushed events
pushed (finishes t ∷ events) = pushed events
pushed (stops ∷ events) = pushed events

count-erase :
    (p t q : ℕ) (busy : List (ℕ × ℕ))
    → StdMap.find t busy ≡ some q
    → count p (running busy) ≡ (if p == q then 1 else 0) + count p (running (StdMap.erase t busy))
unfolding StdMap.find StdMap.erase
count-erase p t q [] h = absurd (ground arith)
count-erase p t q ((u, r) ∷ busy) h = ground (arith, count-erase p t q busy)

length-erase :
    (t q : ℕ) (busy : List (ℕ × ℕ))
    → StdMap.find t busy ≡ some q
    → length busy ≡ 1 + length (StdMap.erase t busy)
unfolding StdMap.find StdMap.erase
length-erase t q [] h = absurd (ground arith)
length-erase t q ((u, r) ∷ busy) h = ground (arith, length-erase t q busy)

-- One event.
accounted-turn : (p t : ℕ) (s : ThreadPool) → p ≢ null → accounted p (turn t s) ≡ accounted p s
unfolding turn dequeue
accounted-turn p t s nn = elim (List-cases s.task_queue) [
  | inl e ↦ ground arith
  | inr (q, rest, e) ↦ elim (ℕ_discrete q null) [ yes f ↦ ground arith | no f ↦ ground arith ]
]

accounted-pool_step :
    (p : ℕ) (e : PoolEvent) (s s' : ThreadPool)
    → p ≢ null
    → pool_step e s ≡ some s'
    → accounted p s' ≡ accounted p s + count p (pushed (e ∷ []))
unfolding pool_step begin create note push_task finish stop enqueue
accounted-pool_step p begins s s' nn h = ground arith
accounted-pool_step p (creates t) s s' nn h = ground arith
accounted-pool_step p (notes t) s s' nn h = ground arith
accounted-pool_step p (pushes q) s s' nn h = ground (arith, count-append p s.task_queue (q ∷ []))
accounted-pool_step p (turns t) s s' nn h = ground (arith, accounted-turn p t s nn)
accounted-pool_step p (finishes t) s s' nn h = elim (Option-cases (StdMap.find t s.busy)) [
  | inl e ↦ absurd (ground arith)
  | inr (q, e) ↦ ground (arith, count-erase p t q s.busy e, count-append p s.finished (q ∷ []))
]
accounted-pool_step p stops s s' nn h = ground arith

pool_step_free :
    (e : PoolEvent) (s s' : ThreadPool)
    → s.free ≡ length s.busy % 4294967296
    → pool_step e s ≡ some s'
    → s'.free ≡ length s'.busy % 4294967296
unfolding pool_step begin create note push_task finish stop turn dequeue
pool_step_free begins s s' u h = ground arith
pool_step_free (creates t) s s' u h = ground arith
pool_step_free (notes t) s s' u h = ground arith
pool_step_free (pushes q) s s' u h = ground arith
pool_step_free (turns t) s s' u h = elim (List-cases s.task_queue) [
  | inl e ↦ ground arith
  | inr (q, rest, e) ↦ ground arith
]
pool_step_free (finishes t) s s' u h = elim (Option-cases (StdMap.find t s.busy)) [
  | inl e ↦ absurd (ground arith)
  | inr (q, e) ↦ ground (arith, length-erase t q s.busy e)
]
pool_step_free stops s s' u h = ground arith

pushed_cons :
    (p : ℕ) (e : PoolEvent) (events : List PoolEvent)
    → count p (pushed (e ∷ events)) ≡ count p (pushed (e ∷ [])) + count p (pushed events)
pushed_cons p begins events = omega arith
pushed_cons p (creates t) events = omega arith
pushed_cons p (notes t) events = omega arith
pushed_cons p (pushes q) events = ground arith
pushed_cons p (turns t) events = omega arith
pushed_cons p (finishes t) events = omega arith
pushed_cons p stops events = omega arith

run_accounted :
    (p : ℕ) (events : List PoolEvent) (s s' : ThreadPool)
    → p ≢ null
    → s.free ≡ length s.busy % 4294967296
    → pool_run events s ≡ some s'
    → (accounted p s' ≡ accounted p s + count p (pushed events))
      × (s'.free ≡ length s'.busy % 4294967296)
unfolding pool_run
run_accounted p [] s s' nn u h = ground arith
run_accounted p (e ∷ events) s s' nn u h = elim (Option-cases (pool_step e s)) [
  | inl f ↦ absurd (ground arith)
  | inr (s1, f) ↦
      let (kept, v) = run_accounted p events s1 s' nn (pool_step_free e s s1 u f) (ground arith) in
      (omega (arith, kept, accounted-pool_step p e s s1 nn f, pushed_cons p e events), v)
]

-- Whatever the threads do in which order, from an empty pool, each task that is not NULL waits, runs
-- or has run exactly as often as it was pushed, and `free_` is the number of threads that run a task.
pub pool_run-accounts :
    (p : ℕ) (events : List PoolEvent) (s : ThreadPool)
    → p ≢ null
    → pool_run events new_pool ≡ some s
    → (count p s.task_queue + count p (running s.busy) + count p s.finished
        ≡ count p (pushed events))
      × (s.free ≡ length s.busy % 4294967296)
pool_run-accounts p events s nn h =
    let (kept, counted) = run_accounted p events new_pool s nn (ground arith) h in
    (omega (arith, kept), counted)
