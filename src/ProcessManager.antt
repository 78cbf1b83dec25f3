-- ===== src/ProcessManager.antt =====
-- ProcessManager.cpp: the process: its lock file, its options and the start of the tasks. What the
-- operating system answers is a parameter.
pub mod Startup
use teachserver.Base.{
  ℕ, Bool, true, false, Option, none, some, List, [], ◌∷◌, ◌++◌, ◌==◌, if◌then◌else◌, ◌>>=◌,
}
use teachserver.ThreadPool.{PoolEvent, begins, creates, notes, pushes}

-- LOCK_NOWAIT is LOCK_EX | LOCK_NB, UNLOCK is LOCK_UN.
pub data LockMode : Type 0 where
  lock_nowait unlock : LockMode

-- The answers: `open` gave a descriptor or failed; `flock` in a mode; whether `ftruncate` failed; what
-- `getopt` and `fork` gave, none for -1; whether the two calls of `system` succeeded; the database.
pub record Answers : Type 0 where
  pub opens : Option ℕ
  pub flock : LockMode → Bool
  pub truncates : Bool
  pub opt : Option ℕ
  pub pid : Option ℕ
  pub system : Bool
  pub database : Bool

-- ProcessManager::lock: the result and `lockfd_`, where none is a descriptor below 0. The outer none
-- is the call of abort.
unfoldable pub lock : Answers → LockMode → Option ℕ → Option (Bool × Option ℕ)
lock a mode none = some (false, none)
lock a mode (some fd) =
    let lockfd = if fd == 0 then a.opens else some fd in
    elim lockfd [
      | none ↦ some (false, none)
      | some got ↦
          if a.flock mode
          then elim mode [
            | unlock ↦ some (true, some got)
            | lock_nowait ↦ if a.truncates then some (true, some got) else none
          ]
          else some (false, some got)
    ]

-- What a call of process_logic came to.
pub data Outcome : Type 0 where
  argv_error parent_done already_running database_error runs no_process stopping version other
        aborts :
      Outcome

-- `case 'd'`, into which `case 's'` falls through.
unfoldable pub run_daemon : Answers → Outcome
unfolding lock
run_daemon a = elim (lock a lock_nowait (some 0)) [
  | none ↦ aborts
  | some (got, fd) ↦
      if got
      then (if a.system then (if a.database then runs else database_error) else aborts)
      else already_running
]

unfoldable pub unlock_or_kill : Answers → Outcome
unfolding lock
unlock_or_kill a = elim (lock a lock_nowait (some 0)) [
  | none ↦ aborts
  | some (got, fd) ↦
      if got
      then elim (lock a unlock fd) [ none ↦ aborts | some r ↦ no_process ]
      else if a.system
      then stopping
      else aborts
]

-- A `fork` that failed gives -1, which is not above 0 either.
abbrev is_parent : Option ℕ → Bool
is_parent none = false
is_parent (some pid) = if pid == 0 then false else true

-- 's' is 115, 'd' is 100, 'u' is 117, 'v' is 118.
unfoldable pub process_logic : Answers → Outcome
unfolding run_daemon unlock_or_kill
process_logic a = elim a.opt [
  | none ↦ argv_error
  | some c ↦
      if c == 115
      then (if is_parent a.pid then parent_done else run_daemon a)
      else if c == 100
      then run_daemon a
      else if c == 117
      then unlock_or_kill a
      else if c == 118
      then version
      else other
]

-- ThreadPool::start for the threads that `pthread_create` made.
unfoldable pub start_threads : List ℕ → List PoolEvent
start_threads [] = []
start_threads (t ∷ ts) = creates t ∷ notes t ∷ start_threads ts

-- ProcessManager::run, up to its endless loop, as it acts on the pool: the event loop, the receive
-- task and the send task.
unfoldable pub start_up : List ℕ → ℕ → ℕ → ℕ → List PoolEvent
unfolding start_threads
start_up threads evloop recv send =
    begins ∷ start_threads threads ++ pushes evloop ∷ pushes recv ∷ pushes send ∷ []
