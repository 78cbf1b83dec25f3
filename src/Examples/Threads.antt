-- ===== src/Examples/Threads.antt =====
-- The queue and the pool under their locks: the theorems at concrete runs, with a mutex that is the
-- number of its owner.
use teachserver.Base.{
  ℕ, ◌+◌, ◌≡◌, ◌≢◌, refl, false, true, none, some, List, [], ◌∷◌, ◌++◌, arith, count, ◌==◌,
  if◌then◌else◌,
}
use teachserver.QueueT.{enqueue}
use teachserver.Mutex.{owned, owned-IsPthread}
use teachserver.Mutex.Guarded.{acts}
use teachserver.Mutex.Guarded
use teachserver.QueueT.Threads.{
  idle, waiting, calls_enqueue, locks_in, sees, pushes, calls_dequeue, locks_out, blocks,
  unlocks_first, fronts, pops, entered, took, moves, Threads, Reach, at_start, later, new_queue,
  at_once,
}
use teachserver.QueueT.Atomic.{ins, outs, Reach-at_once}
use teachserver.QueueT.Wakeups.{Serves, fresh, goes_on, signals_soon, IsWoken, Serves-wakes}
use teachserver.QueueT.Sleeper.{two_waiting-sleeps}
use teachserver.PoolT
use teachserver.PoolT.{Call, gave, got_back, filled, new_pool}
use teachserver.PoolT.Atomic.{backs, gives, pool_program, Reach-hands}
use teachserver.Examples.{mailbox}

-- Thread 2 has put 5 into the queue, and thread 1 has it.
abbrev passed : (s : Threads owned) × Reach (new_queue owned) (entered 5 ∷ took 5 ∷ []) s
unfolding enqueue
passed = (
  _,
  later
      (later
        (later
          (later
            (later
              (later
                (later
                  (later (later at_start (moves 2 (calls_enqueue 5))) (moves 2 (locks_in refl)))
                  (moves 2 sees))
                (moves 2 pushes))
              (moves 2 unlocks_first))
            (moves 1 calls_dequeue))
          (moves 1 (locks_out refl)))
        (moves 1 (fronts refl)))
      (moves 1 (pops refl)),
)

Reach-at_once_example :
    (acts at_once (entered 5 ∷ took 5 ∷ []) [] ≡ some passed.0.shared.queue)
    × (ins (entered 5 ∷ took 5 ∷ []) ≡ outs (entered 5 ∷ took 5 ∷ []) ++ passed.0.shared.queue)
Reach-at_once_example = Reach-at_once owned-IsPthread passed.0 (entered 5 ∷ took 5 ∷ []) passed.1

-- Thread 1 waits, and thread 2 has put 5 into the queue.
abbrev served : (s : Threads owned) × Serves 1 s
unfolding enqueue
served = (
  _,
  goes_on
      (goes_on
        (goes_on
          (goes_on
            (goes_on
              (goes_on (goes_on fresh (moves 1 calls_dequeue) (λ j ne. ground arith))
                (moves 1 (locks_out refl)) (λ j ne. ground arith))
              (moves 1 (blocks refl)) (λ j ne. ground arith))
            (moves 2 (calls_enqueue 5)) (λ j ne. ground arith))
          (moves 2 (locks_in refl)) (λ j ne. ground arith))
        (moves 2 sees) (λ j ne. ground arith))
      (moves 2 pushes) (λ j ne. ground arith),
)

not_empty : (x : ℕ) (xs : List ℕ) → x ∷ xs ≢ []
not_empty x xs e = cc

Serves-wakes_example : (i : ℕ) × (signals_soon (served.0.pc i) ≡ true) × IsWoken i 1 served.0
unfolding served enqueue
Serves-wakes_example = Serves-wakes owned-IsPthread 1 served.0 served.1 (not_empty 5 []) refl

abbrev two_wait : Threads owned
two_wait = record {
  shared = record { mutex = none; queue = [] };
  pc = λ n. if n == 1 then waiting else if n == 2 then waiting else idle;
}

two_waiting-sleeps_example :
    (t : Threads owned) × Reach two_wait (entered 5 ∷ entered 6 ∷ took 5 ∷ []) t
    × (t.shared.queue ≡ 6 ∷ [])
    × (t.pc 2 ≡ waiting)
    × ((n : ℕ) → signals_soon (t.pc n) ≡ false)
two_waiting-sleeps_example =
    two_waiting-sleeps owned-IsPthread two_wait 1 2 3 5 6 (omega arith) refl refl refl refl refl
      (λ n. ground arith)

-- Thread 1 takes the first of two buffers.
abbrev one_out :
    (m : PoolT.PoolT owned) × (places : ℕ → PoolT.Place) × Guarded.Reach
      (pool_program owned)
      (new_pool owned (λ i. i + 7) 2)
      PoolT.idle
      (gave 7 ∷ [])
      m
      places
unfolding new_pool filled enqueue
one_out = (
  _,
  _,
  Guarded.later 1
      (Guarded.later 1
        (Guarded.later 1 (Guarded.later 1 Guarded.at_start PoolT.calls_malloc)
          (PoolT.guards_malloc refl))
        (PoolT.fronts refl))
      (PoolT.pops refl),
)

Reach-hands_example :
    (acts (PoolT.at_once (mailbox 0 0 (λ i. 0) [] [])) (gave 7 ∷ []) (filled (λ i. i + 7) 2, 2)
      ≡ some (one_out.0.queue, one_out.0.size))
    × (count 8 (filled (λ i. i + 7) 2) + count 8 (backs (gave 7 ∷ []))
        ≡ count 8 (gives (gave 7 ∷ [])) + count 8 one_out.0.queue)
Reach-hands_example =
    Reach-hands owned-IsPthread (mailbox 0 0 (λ i. 0) [] []) (λ i. i + 7) 2 8 (gave 7 ∷ [])
      one_out.0 one_out.1 (omega arith) one_out.2
