-- ===== src/QueueT/Wakeups.antt =====
-- QueueT.h: `enqueue` signals only where the queue was empty. With one thread that takes from the
-- queue, as the receive task and the send task are, that is enough.
use teachserver.Base.{
  ℕ, ◌≡◌, ◌≢◌, ◌⊎◌, inl, inr, refl, sym, Bool, true, false, List, [], arith, update, ==_ne, ==-refl,
}
use mathlib.Core.Path.{subst}
use native.Mathlib.Decide.{ℕ_discrete}
use teachserver.QueueT.{enqueue}
use teachserver.Mutex.{Pthread, IsPthread, unlock}
use teachserver.QueueT.Threads.{
  Shared, empty, Pc, idle, locking_in, tests_in, pushing, leaving_in, signalling, waiting, waking,
  Op, Move, pushes, blocks, pops, unlocks_first, Threads, Step, moves, signals, signals_none,
  new_queue,
}
use teachserver.QueueT.Atomic.{Agrees, Apart, Step-Apart, new_queue-Apart}

-- Where a thread is that calls nothing but enqueue.
abbrev pub produces : Pc → Bool
produces idle = true
produces (locking_in t) = true
produces (tests_in t) = true
produces (pushing t b) = true
produces (leaving_in b) = true
produces signalling = true
produces pc = false

-- The runs from a new queue in which only thread c calls dequeue.
pub data Serves {p : Pthread} (c : ℕ) : Threads p → Type 0 where
  fresh : Serves c (new_queue p)
  goes_on :
      {s t : Threads p} {ops : List Op}
      → Serves c s
      → Step s ops t
      → ((j : ℕ) → j ≢ c → produces (t.pc j) ≡ true)
      → Serves c t

-- The thread is on its way to the signal.
abbrev pub signals_soon : Pc → Bool
signals_soon (leaving_in true) = true
signals_soon signalling = true
signals_soon pc = false

signals_soon-cases : (a : Pc) → signals_soon a ≡ true → (a ≡ leaving_in true) ⊎ (a ≡ signalling)
signals_soon-cases (leaving_in true) h = inl refl
signals_soon-cases signalling h = inr refl
signals_soon-cases a h = ground arith

-- A thread that waits while the queue is not empty has a signal coming.
abbrev IsAwake : {p : Pthread} → ℕ → Threads p → Type 0
IsAwake c s =
    empty s.shared.queue ≡ false → s.pc c ≡ waiting → (i : ℕ) × (signals_soon (s.pc i) ≡ true)

module _ {p : Pthread} where
  Move-waiting :
      {i : ℕ} {m n : Shared p} {a b : Pc} {ops : List Op}
      → Move i m a ops n b
      → b ≡ waiting
      → empty n.queue ≡ true
  Move-waiting (blocks e) h = e
  Move-waiting mv h = ground arith

  Move-first :
      {i : ℕ} {m n : Shared p} {a b : Pc} {ops : List Op}
      → Move i m a ops n b
      → Agrees m.queue a
      → empty n.queue ≡ false
      → (empty m.queue ≡ false) ⊎ (signals_soon b ≡ true)
  unfolding enqueue
  Move-first (pushes {b = true}) g h = inr refl
  Move-first (pushes {b = false}) g h = inl (sym g)
  Move-first (pops e) g h = inl (ground (arith, e))
  Move-first mv g h = inl (ground arith)

  Move-soon :
      {i : ℕ} {m n : Shared p} {a b : Pc} {ops : List Op}
      → Move i m a ops n b
      → signals_soon a ≡ true
      → signals_soon b ≡ true
  Move-soon unlocks_first h = refl
  Move-soon mv h = ground arith

  moved-IsAwake :
      (c : ℕ) (s : Threads p) (i : ℕ) {m : Shared p} {b : Pc} {ops : List Op}
      → Move i s.shared (s.pc i) ops m b
      → Agrees s.shared.queue (s.pc i)
      → IsAwake c s
      → IsAwake c (record { shared = m; pc = update s.pc i b })
  moved-IsAwake c s i {m} {b} mv g awake some_in waits = elim (ℕ_discrete c i) [
    | yes same ↦ ground (arith, same, Move-waiting mv)
    | no other ↦ elim (Move-first mv g some_in) [
      | inl before ↦
          let (j, soon) = awake before (ground (arith, ==_ne c i other)) in
          elim (ℕ_discrete j i) [
            | yes same ↦ (
              i,
              ground (
                arith,
                same,
                ==-refl i,
                Move-soon mv (subst (λ k. signals_soon (s.pc k) ≡ true) same soon),
              ),
            )
            | no apart ↦ (j, ground (arith, ==_ne j i apart))
          ]
      | inr first ↦ (i, ground (arith, ==-refl i, first))
    ]
  ]

  Step-IsAwake :
      (c : ℕ) (s t : Threads p) {ops : List Op}
      → Step s ops t
      → ((i : ℕ) → Agrees s.shared.queue (s.pc i))
      → ((j : ℕ) → j ≢ c → produces (s.pc j) ≡ true)
      → IsAwake c s
      → IsAwake c t
  Step-IsAwake c s _ (moves i mv) g alone awake some_in waits =
      moved-IsAwake c s i mv (g i) awake some_in waits
  Step-IsAwake c s _ (signals i j e w) g alone awake some_in waits = elim (ℕ_discrete j c) [
    | yes same ↦ ground (arith, sym same, ==-refl c)
    | no other ↦ ground (arith, alone j other)
  ]
  Step-IsAwake c s _ (signals_none i e nobody) g alone awake some_in waits =
      absurd (nobody c (ground arith))

  Serves-alone : (c : ℕ) (s : Threads p) → Serves c s → (j : ℕ) → j ≢ c → produces (s.pc j) ≡ true
  Serves-alone c _ fresh j ne = refl
  Serves-alone c _ (goes_on r st alone) j ne = alone j ne

  Serves-Apart : (law : IsPthread p) (c : ℕ) (s : Threads p) → Serves c s → Apart law s
  Serves-Apart law c _ fresh = new_queue-Apart law
  Serves-Apart law c _ (goes_on {s} r st alone) = Step-Apart law st (Serves-Apart law c s r)

  Serves-IsAwake : (law : IsPthread p) (c : ℕ) (s : Threads p) → Serves c s → IsAwake c s
  Serves-IsAwake law c _ fresh some_in waits = cc
  Serves-IsAwake law c _ (goes_on {s} {t} r st alone) some_in waits =
      Step-IsAwake c s t st (Serves-Apart law c s r).agrees (Serves-alone c s r)
        (Serves-IsAwake law c s r) some_in waits

  -- The step in which the signal of thread i reaches thread c.
  abbrev pub Signals : ℕ → ℕ → Threads p → Type 0
  Signals i c s = Step s [] (record s { pc = update (update s.pc i idle) c (waking false) })

  -- At most one step of thread i, its unlock, and it stands before the signal, which reaches c.
  abbrev pub IsWoken : ℕ → ℕ → Threads p → Type 0
  IsWoken i c s =
      (s1 : Threads p) × ((s1 ≡ s) ⊎ ((s.pc i ≡ leaving_in true) × Step s [] s1))
      × (s1.pc i ≡ signalling)
      × (s1.pc c ≡ waiting)
      × (s1.shared.queue ≡ s.shared.queue)
      × Signals i c s1

  wakes_now : (i c : ℕ) (s : Threads p) → s.pc i ≡ signalling → s.pc c ≡ waiting → IsWoken i c s
  wakes_now i c s e w = (s, inl refl, e, w, refl, signals i c e w)

  wakes_next :
      (i c : ℕ) (s : Threads p) → s.pc i ≡ leaving_in true → s.pc c ≡ waiting → IsWoken i c s
  wakes_next i c s e w =
      let free = record s.shared { mutex = unlock p i s.shared.mutex } in
      let s1 : Threads p = record { shared = free; pc = update s.pc i signalling } in
      let st : Step s [] s1 =
        moves i (subst (λ a. Move i s.shared a [] free signalling) (sym e) unlocks_first) in
      let ne : (c ≢ i) = λ same. ground (arith, same) in
      let stands : (s1.pc i ≡ signalling) = ground (arith, ==-refl i) in
      let waits : (s1.pc c ≡ waiting) = ground (arith, ==_ne c i ne) in
      (s1, inr (e, st), stands, waits, refl, signals i c stands waits)

-- Where only one thread takes from the queue, no wakeup is lost: as soon as the queue is not empty
-- and that thread waits, another one has put something in and stands behind its `push` and before
-- its signal; after its unlock, where that is still to come, its next step is the signal, which
-- reaches the thread that waits, with the queue as it was. The library is taken to keep its promises.
pub Serves-wakes :
    {p : Pthread} (law : IsPthread p) (c : ℕ) (s : Threads p)
    → Serves c s
    → s.shared.queue ≢ []
    → s.pc c ≡ waiting
    → (i : ℕ) × (signals_soon (s.pc i) ≡ true) × IsWoken i c s
Serves-wakes law c s r some_in w =
    let (i, soon) = Serves-IsAwake law c s r (ground (arith, some_in)) w in
    let next : IsWoken i c s = elim (signals_soon-cases (s.pc i) soon) [
      | inl e ↦ wakes_next i c s e w
      | inr e ↦ wakes_now i c s e w
    ] in
    (i, soon, next)
