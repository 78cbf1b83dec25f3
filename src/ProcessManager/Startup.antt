-- ===== src/ProcessManager/Startup.antt =====
-- ProcessManager.cpp: one server at a time, and all its tasks at once.
use teachserver.Base.{
  ℕ, ◌≤◌, ◌≡◌, ◌≢◌, ◌∙◌, refl, ap, Bool, true, false, Option, none, some, List, [], ◌∷◌, ◌++◌,
  ◌>>=◌, arith, count, length, ◌==◌, Option-cases, append_none, append_one, inl, inr, ==_ne,
}
use teachserver.QueueT.{enqueue}
use teachserver.Single.{null}
use teachserver.ThreadPool.{
  ThreadPool, PoolEvent, pushes, new_pool, begin, create, note, push_task, pool_step, pool_run,
}
use teachserver.ThreadPool.Tasks.{running}
use teachserver.ThreadPool.Starts.{IsDistinct, turn_each, pool_run-starts}
use teachserver.ProcessManager.{
  Answers, lock, runs, run_daemon, unlock_or_kill, process_logic, start_threads, start_up,
}

abbrev pub free_for : ℕ → Option ℕ → Bool
free_for pid none = true
free_for pid (some other) = pid == other

-- What `flock` gives a process when another one, or none, holds the lock on the file: an exclusive
-- lock without waiting is granted exactly where no other process holds it.
abbrev pub Grants : (ℕ → Option ℕ → Bool) → Type 0
Grants flock = (pid : ℕ) (holder : Option ℕ) → flock pid holder ≡ free_for pid holder

-- The answers of the system to a process.
abbrev pub asked : (ℕ → Option ℕ → Bool) → ℕ → Option ℕ → Answers → Answers
asked flock pid holder a = record a { flock = λ mode. flock pid holder }

-- A process that does not get the lock.
refused :
    (flock : ℕ → Option ℕ → Bool) (pid other : ℕ) (a : Answers)
    → flock pid (some other) ≡ false
    → process_logic (asked flock pid (some other) a) ≢ runs
unfolding process_logic run_daemon unlock_or_kill lock
refused flock pid other a h e = elim (Option-cases a.opens) [
  | inl f ↦ ground arith
  | inr (fd, f) ↦ ground arith
]

-- While another process holds the lock on the lock file, a process does not run the server, whatever
-- its option is and whatever else the system answers. `flock` is taken to grant an exclusive lock
-- exactly where no other process holds it.
pub process_logic-excludes :
    (flock : ℕ → Option ℕ → Bool) (pid other : ℕ) (a : Answers)
    → Grants flock
    → pid ≢ other
    → process_logic (asked flock pid (some other) a) ≢ runs
process_logic-excludes flock pid other a g ne =
    refused flock pid other a (g pid (some other) ∙ ==_ne pid other ne)

pool_run_append :
    (events later : List PoolEvent) (s : ThreadPool)
    → pool_run (events ++ later) s ≡ (pool_run events s >>= pool_run later)
unfolding pool_run
pool_run_append [] later s = refl
pool_run_append (e ∷ events) later s = elim (Option-cases (pool_step e s)) [
  | inl f ↦ ground arith
  | inr (s1, f) ↦ ground (arith, pool_run_append events later s1)
]

-- The loop that makes the threads.
start_threads_run :
    (ts : List ℕ) (events : List PoolEvent) (s : ThreadPool)
    → pool_run (start_threads ts ++ events) s
      ≡ pool_run events (record s { idle = s.idle ++ ts; threads = s.threads ++ ts })
unfolding pool_run pool_step start_threads create note
start_threads_run [] events s = cc (append_none s.idle, append_none s.threads)
start_threads_run (t ∷ ts) events s =
    let s1 = record s { idle = s.idle ++ t ∷ []; threads = s.threads ++ t ∷ [] } in
    start_threads_run ts events s1 ∙ cc (append_one s.idle ts t, append_one s.threads ts t)

abbrev pub started : List ℕ → List ℕ → ThreadPool
started ts tasks = record new_pool { state = 1; threads = ts; idle = ts; task_queue = tasks }

start_up_run :
    (ts : List ℕ) (evloop recv send : ℕ)
    → pool_run (start_up ts evloop recv send) new_pool
      ≡ some (started ts (evloop ∷ recv ∷ send ∷ []))
unfolding pool_run pool_step start_up begin push_task enqueue
start_up_run ts evloop recv send =
    start_threads_run ts (pushes evloop ∷ pushes recv ∷ pushes send ∷ [])
      (record new_pool { state = 1 })

-- Once the server has started its threads, at least three and none twice, and has pushed its three
-- tasks, one turn of a thread for each task is enough for all three to run at once, with none left
-- in the queue, although none of them returns.
pub start_up-runs :
    (ts : List ℕ) (evloop recv send : ℕ)
    → 3 ≤ length ts
    → IsDistinct ts
    → evloop ≢ null
    → recv ≢ null
    → send ≢ null
    → let tasks = evloop ∷ recv ∷ send ∷ [] in
      (s : ThreadPool) × (pool_run (start_up ts evloop recv send ++ turn_each tasks ts) new_pool
        ≡ some s)
      × (s.task_queue ≡ [])
      × ((p : ℕ) → count p (running s.busy) ≡ count p tasks)
      × (s.finished ≡ [])
start_up-runs ts evloop recv send enough once n1 n2 n3 =
    let tasks = evloop ∷ recv ∷ send ∷ [] in
    let s0 = started ts tasks in
    let (s, turned, empty, counted, done) =
      pool_run-starts tasks ts s0 (omega arith) refl refl enough (n1, (n2, (n3, tt))) once in
    (
      s,
      pool_run_append (start_up ts evloop recv send) (turn_each tasks ts) new_pool
          ∙ ap (λ o. o >>= pool_run (turn_each tasks ts)) (start_up_run ts evloop recv send)
          ∙ turned,
      empty,
      λ p. counted p ∙ omega arith,
      done,
    )
