-- ===== src/QueueT/Threads.antt =====
-- QueueT.h as its threads run it: each access of the shared queue, and each call of the pthread
-- library, is a move of its own, and the moves of the threads come in any order.
use teachserver.Base.{
  ℕ, ◌≡◌, ◌≢◌, Bool, true, false, Option, none, some, List, [], ◌∷◌, ◌++◌, update, ◌==◌,
  if◌then◌else◌,
}
use teachserver.QueueT.{enqueue, dequeue}
use teachserver.Mutex.{Pthread, new_mutex, lock, unlock}

pub record Shared (p : Pthread) : Type 0 where
  pub mutex : p.Mutex
  pub queue : List ℕ

abbrev pub empty : List ℕ → Bool
empty [] = true
empty (x ∷ xs) = false

-- Where a thread stands, with its local variables.
pub data Pc : Type 0 where
  idle : Pc
  -- enqueue: before the lock, before the test, before `push` with its result, before the unlock,
  -- and before pthread_cond_signal
  locking_in : ℕ → Pc
  tests_in : ℕ → Pc
  pushing : ℕ → Bool → Pc
  leaving_in : Bool → Pc
  signalling : Pc
  -- dequeue: before the lock, at the head of the loop, in pthread_cond_timedwait, before it has the
  -- lock again (`true` is the timeout), and at the unlock of the timeout
  locking_out : Pc
  testing : Pc
  waiting : Pc
  waking : Bool → Pc
  giving_up : Pc
  -- before `pop` with the element that `front` gave, and before the unlock
  popping : ℕ → Pc
  returning : Pc

-- What a call does to the queue: an element is entered, or taken, or the call gives up.
pub data Op : Type 0 where
  entered : ℕ → Op
  took : ℕ → Op
  missed : Op

-- One move of thread i.
pub data Move {p : Pthread} (i : ℕ) (m : Shared p) : Pc → List Op → Shared p → Pc → Type 0 where
  calls_enqueue : (t : ℕ) → Move i m idle [] m (locking_in t)
  locks_in :
      {t : ℕ} {l : p.Mutex}
      → lock p i m.mutex ≡ some l
      → Move i m (locking_in t) [] (record m { mutex = l }) (tests_in t)
  sees : {t : ℕ} → Move i m (tests_in t) [] m (pushing t (empty m.queue))
  pushes :
      {t : ℕ} {b : Bool}
      → Move i m
          (pushing t b)
          (entered t ∷ [])
          (record m { queue = enqueue t m.queue })
          (leaving_in b)
  unlocks_first : Move i m (leaving_in true) [] (record m { mutex = unlock p i m.mutex }) signalling
  unlocks_in : Move i m (leaving_in false) [] (record m { mutex = unlock p i m.mutex }) idle
  calls_dequeue : Move i m idle [] m locking_out
  locks_out :
      {l : p.Mutex}
      → lock p i m.mutex ≡ some l
      → Move i m locking_out [] (record m { mutex = l }) testing
  blocks :
      empty m.queue ≡ true → Move i m testing [] (record m { mutex = unlock p i m.mutex }) waiting
  times_out : Move i m waiting [] m (waking true)
  -- pthread_cond_timedwait may return without a signal
  wakes : Move i m waiting [] m (waking false)
  relocks :
      {l : p.Mutex}
      → lock p i m.mutex ≡ some l
      → Move i m (waking false) [] (record m { mutex = l }) testing
  relocks_late :
      {l : p.Mutex}
      → lock p i m.mutex ≡ some l
      → Move i m (waking true) [] (record m { mutex = l }) giving_up
  gives_up : Move i m giving_up (missed ∷ []) (record m { mutex = unlock p i m.mutex }) idle
  fronts : {x : ℕ} {rest : List ℕ} → m.queue ≡ x ∷ rest → Move i m testing [] m (popping x)
  pops :
      {x y : ℕ} {rest : List ℕ}
      → m.queue ≡ y ∷ rest
      → Move i m (popping x) (took x ∷ []) (record m { queue = rest }) returning
  returns : Move i m returning [] (record m { mutex = unlock p i m.mutex }) idle

pub record Threads (p : Pthread) : Type 0 where
  pub shared : Shared p
  pub pc : ℕ → Pc

-- One move of a thread; or the signal of one, which reaches a thread that waits if there is one.
pub data Step {p : Pthread} (s : Threads p) : List Op → Threads p → Type 0 where
  moves :
      (i : ℕ) {ops : List Op} {m : Shared p} {q : Pc}
      → Move i s.shared (s.pc i) ops m q
      → Step s ops (record { shared = m; pc = update s.pc i q })
  signals :
      (i j : ℕ)
      → s.pc i ≡ signalling
      → s.pc j ≡ waiting
      → Step s [] (record s { pc = update (update s.pc i idle) j (waking false) })
  signals_none :
      (i : ℕ)
      → s.pc i ≡ signalling
      → ((j : ℕ) → s.pc j ≢ waiting)
      → Step s [] (record s { pc = update s.pc i idle })

-- The constructor of the queue, before any thread has called.
abbrev pub new_queue : (p : Pthread) → Threads p
new_queue p = record { shared = record { mutex = new_mutex p; queue = [] }; pc = λ i. idle }

-- The states that come after `s`, with what was done to the queue on the way, in order.
pub data Reach {p : Pthread} (s : Threads p) : List Op → Threads p → Type 0 where
  at_start : Reach s [] s
  later :
      {done ops : List Op} {t u : Threads p}
      → Reach s done t
      → Step t ops u
      → Reach s (done ++ ops) u

-- A call on the queue whose operations are one step each. `none`: not what it would give.
unfoldable pub at_once : Op → List ℕ → Option (List ℕ)
unfolding enqueue dequeue
at_once (entered t) queue = some (enqueue t queue)
at_once (took x) queue = elim (dequeue queue) [
  | none ↦ none
  | some (out, rest) ↦ if out == x then some rest else none
]
at_once missed queue = some queue
