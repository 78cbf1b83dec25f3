-- ===== src/QueueT/Atomic.antt =====
-- QueueT.h: the lock keeps the threads apart, so that each call acts on the queue at once.
use teachserver.Base.{
  head, ℕ, ◌≡◌, ◌≢◌, ◌⊎◌, inl, refl, sym, ◌∙◌, Bool, true, false, some, List, [], ◌∷◌, ◌++◌, arith,
  update, append_one, append_none,
}
use mathlib.Core.Option.{some-injective}
use teachserver.QueueT.{enqueue, dequeue}
use teachserver.Mutex.{Pthread, IsPthread}
use teachserver.Mutex.Guarded.{
  Program, IsGuarded, acts, acts-append, IsApart, new-IsApart, moved-IsApart, outside-IsApart,
}
use teachserver.QueueT.Threads.{
  Shared, empty, Pc, idle, tests_in, pushing, leaving_in, testing, waking, giving_up, popping,
  returning, Op, entered, took, missed, Move, sees, pushes, locks_in, locks_out, relocks,
  relocks_late, fronts, pops, Threads, Step, moves, signals, signals_none, new_queue, Reach,
  at_start, later, at_once,
}

-- Between the return of the lock and the unlock.
abbrev pub inside : Pc → Bool
inside (tests_in t) = true
inside (pushing t b) = true
inside (leaving_in b) = true
inside testing = true
inside giving_up = true
inside (popping x) = true
inside returning = true
inside pc = false

-- What a thread has read of the queue is still so.
abbrev pub Agrees : List ℕ → Pc → Type 0
Agrees queue (pushing t b) = b ≡ empty queue
Agrees queue (popping x) = head queue ≡ some x
Agrees queue pc = Unit {0}

-- The queue as a class that works under a lock.
abbrev pub queue_program : (p : Pthread) → Program p
queue_program p = record {
  Shared = Shared p;
  Guarded = List ℕ;
  Place = Pc;
  Call = Op;
  mutex = λ m. m.mutex;
  guarded = λ m. m.queue;
  Move = Move;
  inside = inside;
  Agrees = Agrees;
}

module _ {p : Pthread} (law : IsPthread p) where
  open law use {owner, lock_waits, lock_takes, unlock_frees}

  -- A thread that moves into the locked part, or stays there, owns the mutex.
  Move-inside :
      {i : ℕ} {m n : Shared p} {a b : Pc} {ops : List Op}
      → Move i m a ops n b
      → (inside a ≡ true → owner m.mutex ≡ some i)
      → inside b ≡ true
      → owner n.mutex ≡ some i
  Move-inside {i} {m} (locks_in {l} e) h into = lock_takes i m.mutex l e
  Move-inside {i} {m} (locks_out {l} e) h into = lock_takes i m.mutex l e
  Move-inside {i} {m} (relocks {l} e) h into = lock_takes i m.mutex l e
  Move-inside {i} {m} (relocks_late {l} e) h into = lock_takes i m.mutex l e
  Move-inside mv h into = ground arith

  -- A thread that holds the mutex keeps it while others move.
  Move-owner :
      {i j : ℕ} {m n : Shared p} {a b : Pc} {ops : List Op}
      → Move i m a ops n b
      → (inside a ≡ true → owner m.mutex ≡ some i)
      → i ≢ j
      → owner m.mutex ≡ some j
      → owner n.mutex ≡ some j
  Move-owner {i} {m} (locks_in {l} e) h ne o = ground (arith, lock_waits i m.mutex l e)
  Move-owner {i} {m} (locks_out {l} e) h ne o = ground (arith, lock_waits i m.mutex l e)
  Move-owner {i} {m} (relocks {l} e) h ne o = ground (arith, lock_waits i m.mutex l e)
  Move-owner {i} {m} (relocks_late {l} e) h ne o = ground (arith, lock_waits i m.mutex l e)
  Move-owner mv h ne o = ground arith

  -- Only a thread inside changes the queue.
  Move-queue :
      {i : ℕ} {m n : Shared p} {a b : Pc} {ops : List Op}
      → Move i m a ops n b
      → (inside a ≡ true) ⊎ (n.queue ≡ m.queue)
  Move-queue pushes = inl refl
  Move-queue (pops e) = inl refl
  Move-queue mv = ground arith

  Move-Agrees :
      {i : ℕ} {m n : Shared p} {a b : Pc} {ops : List Op} → Move i m a ops n b → Agrees n.queue b
  Move-Agrees sees = refl
  Move-Agrees (fronts e) = ground (arith, e)
  Move-Agrees mv = ground arith

  Agrees-outside : (queue : List ℕ) (a : Pc) → inside a ≡ false → Agrees queue a
  Agrees-outside queue a h = ground arith

  pub queue-IsGuarded : IsGuarded law (queue_program p)
  queue-IsGuarded = record {
    inside_owns = Move-inside;
    others_keep = Move-owner;
    inside_writes = Move-queue;
    move_agrees = Move-Agrees;
    outside_agrees = Agrees-outside;
  }

  -- What a move did is what the operation would do at once.
  Move-acts :
      {i : ℕ} {m n : Shared p} {a b : Pc} {ops : List Op}
      → Move i m a ops n b
      → Agrees m.queue a
      → acts at_once ops m.queue ≡ some n.queue
  unfolding acts at_once enqueue dequeue
  Move-acts (pops e) g = ground (arith, e)
  Move-acts mv g = ground arith

  abbrev pub Apart : Threads p → Type 0
  Apart s = IsApart law (queue_program p) s.shared s.pc

  pub Step-Apart : {s t : Threads p} {ops : List Op} → Step s ops t → Apart s → Apart t
  Step-Apart {s} (moves i mv) u = moved-IsApart law _ queue-IsGuarded s.pc i mv u
  Step-Apart {s} (signals i j e w) u =
      outside-IsApart law _ queue-IsGuarded s.shared (update s.pc i idle) j (waking false) refl
        (outside-IsApart law _ queue-IsGuarded s.shared s.pc i idle refl u)
  Step-Apart {s} (signals_none i e alone) u =
      outside-IsApart law _ queue-IsGuarded s.shared s.pc i idle refl u

  Step-acts :
      {s t : Threads p} {ops : List Op}
      → Step s ops t
      → Apart s
      → acts at_once ops s.shared.queue ≡ some t.shared.queue
  unfolding acts
  Step-acts (moves i mv) u = Move-acts mv (u.agrees i)
  Step-acts (signals i j e w) u = refl
  Step-acts (signals_none i e alone) u = refl

  pub new_queue-Apart : Apart (new_queue p)
  new_queue-Apart = new-IsApart law _ (new_queue p).shared idle refl queue-IsGuarded

  Reach-Apart : {s : Threads p} {ops : List Op} → Reach (new_queue p) ops s → Apart s
  Reach-Apart at_start = new_queue-Apart
  Reach-Apart (later r st) = Step-Apart st (Reach-Apart r)

  Reach-acts :
      {s : Threads p} {ops : List Op}
      → Reach (new_queue p) ops s
      → acts at_once ops [] ≡ some s.shared.queue
  unfolding acts
  Reach-acts at_start = refl
  Reach-acts (later {done} {ops} {t} {u} r st) =
      acts-append at_once done ops [] t.shared.queue (Reach-acts r) ∙ Step-acts st (Reach-Apart r)

-- The elements that were entered, and those that were taken, in order.
abbrev pub ins : List Op → List ℕ
ins [] = []
ins (entered t ∷ ops) = t ∷ ins ops
ins (took x ∷ ops) = ins ops
ins (missed ∷ ops) = ins ops

abbrev pub outs : List Op → List ℕ
outs [] = []
outs (entered t ∷ ops) = outs ops
outs (took x ∷ ops) = x ∷ outs ops
outs (missed ∷ ops) = outs ops

at_once-fifo :
    (ops : List Op) (queue after : List ℕ)
    → acts at_once ops queue ≡ some after
    → queue ++ ins ops ≡ outs ops ++ after
unfolding acts at_once enqueue dequeue
at_once-fifo [] queue after e = sym (append_none queue) ∙ some-injective queue after e
at_once-fifo (entered t ∷ ops) queue after e =
    sym (append_one queue (ins ops) t) ∙ at_once-fifo ops (queue ++ t ∷ []) after e
at_once-fifo (took x ∷ ops) [] after e = cc
at_once-fifo (took x ∷ ops) (y ∷ queue) after e = ground (arith, e, at_once-fifo ops queue after)
at_once-fifo (missed ∷ ops) queue after e = at_once-fifo ops queue after e

-- Whatever the threads do in which order, as long as the library keeps its promises: each call on a
-- new queue does at once what the queue with one step for each operation does, so that the elements
-- leave in the order in which they came, each once, and what has not left is in the queue.
pub Reach-at_once :
    {p : Pthread} (law : IsPthread p) (s : Threads p) (ops : List Op)
    → Reach (new_queue p) ops s
    → (acts at_once ops [] ≡ some s.shared.queue) × (ins ops ≡ outs ops ++ s.shared.queue)
Reach-at_once law s ops r = let e = Reach-acts law r in (e, at_once-fifo ops [] s.shared.queue e)
