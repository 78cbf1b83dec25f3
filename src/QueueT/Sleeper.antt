-- ===== src/QueueT/Sleeper.antt =====
-- QueueT.h with two threads that take from the queue, as the threads of the pool in ThreadPool.cpp do
-- from TaskQueue_.
use teachserver.Base.{
  ℕ, ◌≡◌, ◌≢◌, refl, sym, ap, ◌∙◌, false, none, List, [], ◌∷◌, ◌++◌, arith, update, ==-refl,
}
use mathlib.Core.Path.{subst}
use teachserver.QueueT.{enqueue}
use teachserver.Mutex.{Pthread, IsPthread, unlock}
use teachserver.QueueT.Threads.{
  Shared, Pc, idle, signalling, waiting, waking, Op, entered, took, Move, calls_enqueue, locks_in,
  sees, pushes, unlocks_first, unlocks_in, relocks, fronts, pops, returns, Threads, moves, signals,
  Reach, at_start, later,
}
use teachserver.QueueT.Wakeups.{signals_soon}

module _ {p : Pthread} where
  -- A run from `s` to a state with this shared part and these places of the threads.
  record Ran (s : Threads p) (ops : List Op) (m : Shared p) (f : ℕ → Pc) : Type 0 where
    end : Threads p
    reach : Reach s ops end
    shared : end.shared ≡ m
    places : (j : ℕ) → end.pc j ≡ f j

  module _ {s : Threads p} {ops : List Op} {m : Shared p} {f : ℕ → Pc} where
    goes :
        Ran s ops m f
        → (i : ℕ) {a b : Pc} {more : List Op} {n : Shared p} → f i ≡ a
        → Move i m a more n b
        → Ran s (ops ++ more) n (update f i b)
    goes r i {a} {b} {more} {n} e mv =
        let mv' =
          subst (λ c. Move i r.end.shared c more n b) (sym (r.places i ∙ e))
            (subst (λ k. Move i k a more n b) (sym r.shared) mv) in
        record {
          end = record { shared = n; pc = update r.end.pc i b };
          reach = later r.reach (moves i mv');
          shared = refl;
          places = λ j. ground (arith, r.places j);
        }

    signals_to :
        Ran s ops m f
        → (i j : ℕ) → f i ≡ signalling
        → f j ≡ waiting
        → Ran s (ops ++ []) m (update (update f i idle) j (waking false))
    signals_to r i j e w = record {
      end = record r.end { pc = update (update r.end.pc i idle) j (waking false) };
      reach = later r.reach (signals i j (r.places i ∙ e) (r.places j ∙ w));
      shared = r.shared;
      places = λ k. ground (arith, r.places k);
    }

    settles : Ran s ops m f → {g : ℕ → Pc} → ((j : ℕ) → f j ≡ g j) → Ran s ops m g
    settles r h = record {
      end = r.end;
      reach = r.reach;
      shared = r.shared;
      places = λ j. r.places j ∙ h j;
    }

  -- The next move of the thread that moved last.
  next :
      {s : Threads p} {ops more : List Op} {m n : Shared p} (f : ℕ → Pc) (i : ℕ) {a b : Pc}
      → Ran s ops m (update f i a)
      → Move i m a more n b
      → Ran s (ops ++ more) n (update f i b)
  next f i r mv = settles (goes r i (ground (arith, ==-refl i)) mv) (λ j. ground arith)

abbrev five : List Op → List Op → List Op
five ops more = ((((ops ++ []) ++ []) ++ []) ++ more) ++ []

module _ {p : Pthread} (law : IsPthread p) where
  open law use {owner, lock_takes, lock_gets, unlock_frees}

  -- After a whole call: the queue, the places, and that the lock is free again.
  record Called (s : Threads p) (ops : List Op) (queue : List ℕ) (f : ℕ → Pc) : Type 0 where
    mutex : p.Mutex
    free : owner mutex ≡ none
    ran : Ran s ops (record { mutex = mutex; queue = queue }) f

  module _ {s : Threads p} {ops : List Op} {f : ℕ → Pc} where
    enqueues_first :
        (c : Called s ops [] f) (k x : ℕ)
        → f k ≡ idle
        → Called s (five ops (entered x ∷ [])) (x ∷ []) (update f k signalling)
    unfolding enqueue
    enqueues_first c k x e =
        let (l, got) = lock_gets k c.mutex c.free in
        let r1 = next f k (goes c.ran k e (calls_enqueue x)) (locks_in {t = x} got) in
        let r3 = next f k (next f k r1 (sees {t = x})) pushes in
        record {
          mutex = unlock p k l;
          free = unlock_frees k l (lock_takes k c.mutex l got);
          ran = next f k r3 unlocks_first;
        }

    enqueues_next :
        {y : ℕ} {rest : List ℕ} (c : Called s ops (y ∷ rest) f) (k x : ℕ)
        → f k ≡ idle
        → Called s (five ops (entered x ∷ [])) (y ∷ rest ++ x ∷ []) (update f k idle)
    unfolding enqueue
    enqueues_next c k x e =
        let (l, got) = lock_gets k c.mutex c.free in
        let r1 = next f k (goes c.ran k e (calls_enqueue x)) (locks_in {t = x} got) in
        let r3 = next f k (next f k r1 (sees {t = x})) pushes in
        record {
          mutex = unlock p k l;
          free = unlock_frees k l (lock_takes k c.mutex l got);
          ran = next f k r3 unlocks_in;
        }

    takes :
        {x : ℕ} {rest : List ℕ} (c : Called s ops (x ∷ rest) f) (i : ℕ)
        → f i ≡ waking false
        → Called s ((((ops ++ []) ++ []) ++ took x ∷ []) ++ []) rest (update f i idle)
    takes c i e =
        let (l, got) = lock_gets i c.mutex c.free in
        let r1 = next f i (goes c.ran i e (relocks got)) (fronts refl) in
        record {
          mutex = unlock p i l;
          free = unlock_frees i l (lock_takes i c.mutex l got);
          ran = next f i (next f i r1 (pops refl)) returns;
        }

    signals_one :
        {queue : List ℕ} (c : Called s ops queue f) (i j : ℕ)
        → f i ≡ signalling
        → f j ≡ waiting
        → Called s (ops ++ []) queue (update (update f i idle) j (waking false))
    signals_one c i j e w = record {
      mutex = c.mutex;
      free = c.free;
      ran = signals_to c.ran i j e w;
    }

-- With two threads that wait, one wakeup can get lost: where another thread puts two elements into
-- the empty queue and nobody else is about to signal, there is a run in which the first of them is
-- taken by one of the two, and the second one stays in the queue while the other thread waits and no
-- signal is on its way. The lock is free at the start, and the library is taken to keep its promises.
pub two_waiting-sleeps :
    {p : Pthread} (law : IsPthread p) (s : Threads p) (i j k x y : ℕ)
    → i ≢ j
    → s.pc i ≡ waiting
    → s.pc j ≡ waiting
    → s.pc k ≡ idle
    → law.owner s.shared.mutex ≡ none
    → s.shared.queue ≡ []
    → ((n : ℕ) → signals_soon (s.pc n) ≡ false)
    → (t : Threads p) × Reach s (entered x ∷ entered y ∷ took x ∷ []) t
      × (t.shared.queue ≡ y ∷ [])
      × (t.pc j ≡ waiting)
      × ((n : ℕ) → signals_soon (t.pc n) ≡ false)
two_waiting-sleeps law s i j k x y ne wi wj ik free emp quiet =
    let c0 : Called law s [] [] s.pc = record {
      mutex = s.shared.mutex;
      free = free;
      ran = record {
        end = s;
        reach = at_start;
        shared = ap (λ q. record { mutex = s.shared.mutex; queue = q }) emp;
        places = λ n. refl;
      };
    } in
    let c1 = enqueues_first law c0 k x ik in
    let c2 = signals_one law c1 k i (ground arith) (ground arith) in
    let c3 = enqueues_next law c2 k y (ground arith) in
    let c4 = takes law c3 i (ground arith) in
    (
      c4.ran.end,
      c4.ran.reach,
      ap (λ m. m.queue) c4.ran.shared,
      c4.ran.places j ∙ ground arith,
      λ n. ground (arith, c4.ran.places n, quiet n),
    )
