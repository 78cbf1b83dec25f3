-- ===== src/ThreadPool.antt =====
-- ThreadPool.cpp: the threads that run the tasks of the server. A thread and a task are numbers, 0 is
-- the NULL task. What a thread does between two accesses of shared state is one event.
pub mod Tasks
pub mod Starts
use teachserver.Base.{
  ℕ, ◌+◌, ◌%◌, Option, none, some, List, [], ◌∷◌, ◌++◌, ◌==◌, if◌then◌else◌, ◌>>=◌, Bool, true,
  false, length,
}
use teachserver.StdMap
use teachserver.QueueT.{enqueue, dequeue}
use teachserver.Single.{null}

-- `idle` are the threads at the head of their loop, `busy` those in `t->work ()`, with the task;
-- `finished` are the tasks whose `work` has returned, in order.
pub record ThreadPool : Type 0 where
  pub threads : List ℕ
  pub task_queue : List ℕ
  pub state : ℕ
  pub free : ℕ
  pub idle : List ℕ
  pub busy : List (ℕ × ℕ)
  pub finished : List ℕ

abbrev pub new_pool : ThreadPool
new_pool = record {
  threads = [];
  task_queue = [];
  state = 0;
  free = 0;
  idle = [];
  busy = [];
  finished = [];
}

-- `list::remove`, and the threads but one.
unfoldable pub remove : ℕ → List ℕ → List ℕ
remove t [] = []
remove t (u ∷ us) = if t == u then remove t us else u ∷ remove t us

-- The numbers up to one that is not in the list: whether it is in it.
unfoldable pub is_in : ℕ → List ℕ → Bool
is_in t [] = false
is_in t (u ∷ us) = if t == u then true else is_in t us

unfoldable pub push_task : ℕ → ThreadPool → ThreadPool
unfolding enqueue
push_task p s = record s { task_queue = enqueue p s.task_queue }

unfoldable pub get_count : ThreadPool → ℕ
get_count s = length s.threads

-- `state_ = 1`, and one round of the loop in `start` for the thread that `pthread_create` made; the
-- thread may run before it is in the list.
unfoldable pub begin : ThreadPool → ThreadPool
begin s = record s { state = 1 }

unfoldable pub create : ℕ → ThreadPool → ThreadPool
create t s = record s { idle = s.idle ++ t ∷ [] }

unfoldable pub note : ℕ → ThreadPool → ThreadPool
note t s = record s { threads = s.threads ++ t ∷ [] }

-- The first half of a round of the loop in `thread`: the thread ends where the state is 0; it takes
-- a task and counts itself, or goes on without one.
unfoldable pub turn : ℕ → ThreadPool → ThreadPool
unfolding dequeue remove
turn t s =
    if s.state == 0
    then record s { threads = remove t s.threads; idle = remove t s.idle }
    else elim (dequeue s.task_queue) [
      | none ↦ s
      | some (p, rest) ↦ if p == null then record s { task_queue = rest } else record s {
        task_queue = rest;
        idle = remove t s.idle;
        busy = (t, p) ∷ s.busy;
        free = (s.free + 1) % 4294967296;
      }
    ]

-- The second half: `work` has returned.
unfoldable pub finish : ℕ → ℕ → ThreadPool → ThreadPool
finish t p s = record s {
  busy = StdMap.erase t s.busy;
  free = (s.free + 4294967295) % 4294967296;
  idle = s.idle ++ t ∷ [];
  finished = s.finished ++ p ∷ [];
}

-- The first half of `stop`, and whether its loop goes on waiting.
unfoldable pub stop : ThreadPool → ThreadPool
stop s = record s { state = 0 }

unfoldable pub waits : ThreadPool → Bool
unfolding get_count
waits s = if get_count s == 0 then false else true

-- The threads that get the signal, and the pool after it.
unfoldable pub kill : ThreadPool → List ℕ × ThreadPool
kill s = (s.threads, record s { threads = [] })

pub data PoolEvent : Type 0 where
  begins : PoolEvent
  creates : ℕ → PoolEvent
  notes : ℕ → PoolEvent
  pushes : ℕ → PoolEvent
  turns : ℕ → PoolEvent
  finishes : ℕ → PoolEvent
  stops : PoolEvent

-- An event of a thread that is not where the event starts is none.
unfoldable pub pool_step : PoolEvent → ThreadPool → Option ThreadPool
unfolding begin create note push_task turn finish stop is_in
pool_step begins s = some (begin s)
pool_step (creates t) s = some (create t s)
pool_step (notes t) s = some (note t s)
pool_step (pushes p) s = some (push_task p s)
pool_step (turns t) s = if is_in t s.idle then some (turn t s) else none
pool_step (finishes t) s = elim (StdMap.find t s.busy) [
  | none ↦ none
  | some p ↦ some (finish t p s)
]
pool_step stops s = some (stop s)

unfoldable pub pool_run : List PoolEvent → ThreadPool → Option ThreadPool
unfolding pool_step
pool_run [] s = some s
pool_run (e ∷ events) s = pool_step e s >>= pool_run events
