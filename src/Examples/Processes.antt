-- ===== src/Examples/Processes.antt =====
-- The process, its threads and its libraries: the theorems at concrete ones.
use teachserver.Base.{
  ℕ, ◌+◌, ◌%◌, ◌≡◌, ◌≢◌, refl, true, false, Option, none, some, List, [], ◌∷◌, ◌++◌, arith, count,
  length, map,
}
use teachserver.StdMap
use teachserver.QueueT.{enqueue, dequeue}
use teachserver.ThreadPool.{
  ThreadPool, PoolEvent, begins, creates, notes, pushes, turns, finishes, new_pool, pool_run,
  pool_step, begin, create, note, push_task, turn, finish, stop, remove, is_in,
}
use teachserver.ThreadPool.Tasks.{running, pushed, pool_run-accounts}
use teachserver.ThreadPool.Starts.{turn_each}
use teachserver.ProcessManager.{Answers, runs, process_logic, start_up}
use teachserver.ProcessManager.Startup.{asked, free_for, process_logic-excludes, start_up-runs}
use teachserver.Sock.{RecvCall, got, got_end, recv_v}
use teachserver.Sock.Whole.{ready, taken_of, recv_v-recv_n}
use teachserver.Evloop.{recv_n}

-- Two threads, two tasks; the first one returns and the second one runs.
abbrev events : List PoolEvent
events =
    begins
    ∷ creates 31
    ∷ notes 31
    ∷ creates 32
    ∷ notes 32
    ∷ pushes 5
    ∷ pushes 6
    ∷ turns 31
    ∷ turns 32
    ∷ finishes 31
    ∷ []

abbrev pool_of : Option ThreadPool → ThreadPool
pool_of none = new_pool
pool_of (some s) = s

abbrev worked : ThreadPool
worked = pool_of (pool_run events new_pool)

pool_run-accounts_example :
    (count 6 worked.task_queue + count 6 (running worked.busy) + count 6 worked.finished
      ≡ count 6 (pushed events))
    × (worked.free ≡ length worked.busy % 4294967296)
unfolding pool_run pool_step begin create note push_task turn finish stop remove is_in enqueue
    dequeue StdMap.find StdMap.erase
pool_run-accounts_example = pool_run-accounts 6 events worked (ground arith) refl

-- The ten threads of the server, and the addresses of its tasks.
abbrev threads : List ℕ
threads = 11 ∷ 12 ∷ 13 ∷ 14 ∷ 15 ∷ 16 ∷ 17 ∷ 18 ∷ 19 ∷ 20 ∷ []

start_up-runs_example :
    (s : ThreadPool) × (pool_run
        (start_up threads 501 502 503 ++ turn_each (501 ∷ 502 ∷ 503 ∷ []) threads)
        new_pool
      ≡ some s)
    × (s.task_queue ≡ [])
    × ((p : ℕ) → count p (running s.busy) ≡ count p (501 ∷ 502 ∷ 503 ∷ []))
    × (s.finished ≡ [])
unfolding remove
start_up-runs_example =
    start_up-runs threads 501 502 503 (omega arith) (ground arith) (ground arith) (ground arith)
      (ground arith)

-- A system that grants the lock as documented, and one that answers every question well.
abbrev granted : Answers
granted = record {
  opens = some 3;
  flock = λ mode. true;
  truncates = true;
  opt = some 100;
  pid = some 0;
  system = true;
  database = true;
}

-- The process 4 asks while the process 5 holds the lock.
process_logic-excludes_example : process_logic (asked free_for 4 (some 5) granted) ≢ runs
process_logic-excludes_example =
    process_logic-excludes free_for 4 5 granted (λ pid holder. refl) (omega arith)

abbrev calls : List RecvCall
calls = got (1 ∷ 2 ∷ []) false ∷ got (3 ∷ []) false ∷ got_end false ∷ []

recv_v-recv_n_example : recv_v calls 4 [] ≡ taken_of (recv_n (map ready calls) 4 [])
recv_v-recv_n_example = recv_v-recv_n calls 4 [] (refl, (refl, (refl, tt))) (ground arith)
