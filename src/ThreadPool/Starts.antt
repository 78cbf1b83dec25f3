-- ===== src/ThreadPool/Starts.antt =====
-- Tasks that never return do not keep each other from running, while there are threads.
use teachserver.Base.{
  ℕ, ◌+◌, ◌%◌, ◌≤◌, ◌≡◌, ◌≢◌, refl, some, List, [], ◌∷◌, arith, count, length, All,
}
use teachserver.QueueT.{dequeue}
use teachserver.Single.{null}
use teachserver.ThreadPool.{ThreadPool, PoolEvent, turns, remove, is_in, turn, pool_step, pool_run}
use teachserver.ThreadPool.Tasks.{running}

-- No thread is twice in a list.
abbrev pub IsDistinct : List ℕ → Type 0
IsDistinct [] = Unit
IsDistinct (t ∷ ts) = (remove t ts ≡ ts) × IsDistinct ts

-- One turn of a thread for each of the tasks.
abbrev pub turn_each : List ℕ → List ℕ → List PoolEvent
turn_each [] ts = []
turn_each (p ∷ ps) [] = []
turn_each (p ∷ ps) (t ∷ ts) = turns t ∷ turn_each ps ts

abbrev took : ℕ → ℕ → List ℕ → List ℕ → ThreadPool → ThreadPool
took t p ps ts s = record s {
  task_queue = ps;
  idle = ts;
  busy = (t, p) ∷ s.busy;
  free = (s.free + 1) % 4294967296;
}

pool_step_takes :
    (t p : ℕ) (ps ts : List ℕ) (s : ThreadPool)
    → s.state ≢ 0
    → s.task_queue ≡ p ∷ ps
    → s.idle ≡ t ∷ ts
    → p ≢ null
    → remove t ts ≡ ts
    → pool_step (turns t) s ≡ some (took t p ps ts s)
unfolding pool_step turn dequeue remove is_in
pool_step_takes t p ps ts s on queue idle nn once = ground arith

-- While the pool is started, tasks that are not NULL, at most as many as there are threads at the
-- head of their loop, are all running after one turn of a thread each: the queue is empty, and each
-- task is run as often as it stood in it, although no task has returned.
pub pool_run-starts :
    (ps ts : List ℕ) (s : ThreadPool)
    → s.state ≢ 0
    → s.task_queue ≡ ps
    → s.idle ≡ ts
    → length ps ≤ length ts
    → All (λ p. p ≢ null) ps
    → IsDistinct ts
    → (s' : ThreadPool) × (pool_run (turn_each ps ts) s ≡ some s')
      × (s'.task_queue ≡ [])
      × ((p : ℕ) → count p (running s'.busy) ≡ count p ps + count p (running s.busy))
      × (s'.finished ≡ s.finished)
unfolding pool_run
pool_run-starts [] ts s on queue idle enough nn once = (s, refl, queue, λ p. omega arith, refl)
pool_run-starts (p ∷ ps) [] s on queue idle enough nn once = absurd (omega arith)
pool_run-starts (p ∷ ps) (t ∷ ts) s on queue idle enough nn once =
    let first = pool_step_takes t p ps ts s on queue idle nn.0 once.0 in
    let (s', rest, empty, runs, done) =
      pool_run-starts ps ts (took t p ps ts s) on refl refl (omega (arith, enough)) nn.1 once.1 in
    (s', ground (arith, first, rest), empty, λ q. omega (arith, runs q), done)
