-- ===== src/Mutex/Guarded.antt =====
-- Mutex.h: what a lock around each access gives, for any class whose calls lock, work and unlock.
use teachserver.Base.{
  ℕ, ◌≡◌, ◌≢◌, ◌⊎◌, inl, inr, refl, sym, ◌∙◌, Bool, true, false, Bool-cases, Option, some,
  Option-cases, List, [], ◌∷◌, ◌++◌, ◌>>=◌, arith, update,
}
use native.Mathlib.Decide.{ℕ_discrete}
use teachserver.Mutex.{Pthread, IsPthread}

-- A class as its threads run it: what they share, with the mutex and the data that it guards; the
-- places where a thread can stand; the moves of one thread, with the calls they complete.
pub record Program (p : Pthread) : Type 1 where
  pub Shared : Type 0
  pub Guarded : Type 0
  pub Place : Type 0
  pub Call : Type 0
  pub mutex : Shared → p.Mutex
  pub guarded : Shared → Guarded
  pub Move : ℕ → Shared → Place → List Call → Shared → Place → Type 0
  -- between the lock and the unlock
  pub inside : Place → Bool
  -- what a thread has read of the data is still so
  pub Agrees : Guarded → Place → Type 0

-- That the class keeps to its lock, as its moves show one by one.
pub record IsGuarded {p : Pthread} (law : IsPthread p) (g : Program p) : Type 0 where
  pub inside_owns :
      {i : ℕ} {m n : g.Shared} {a b : g.Place} {ops : List g.Call}
      → g.Move i m a ops n b
      → (g.inside a ≡ true → law.owner (g.mutex m) ≡ some i)
      → g.inside b ≡ true
      → law.owner (g.mutex n) ≡ some i
  pub others_keep :
      {i j : ℕ} {m n : g.Shared} {a b : g.Place} {ops : List g.Call}
      → g.Move i m a ops n b
      → (g.inside a ≡ true → law.owner (g.mutex m) ≡ some i)
      → i ≢ j
      → law.owner (g.mutex m) ≡ some j
      → law.owner (g.mutex n) ≡ some j
  pub inside_writes :
      {i : ℕ} {m n : g.Shared} {a b : g.Place} {ops : List g.Call}
      → g.Move i m a ops n b
      → (g.inside a ≡ true) ⊎ (g.guarded n ≡ g.guarded m)
  pub move_agrees :
      {i : ℕ} {m n : g.Shared} {a b : g.Place} {ops : List g.Call}
      → g.Move i m a ops n b
      → g.Agrees (g.guarded n) b
  pub outside_agrees : (d : g.Guarded) (a : g.Place) → g.inside a ≡ false → g.Agrees d a

-- Calls one after the other, each at once. `none`: a call would not have this result.
module _ {C D : Type 0} (act : C → D → Option D) where
  unfoldable pub acts : List C → D → Option D
  acts [] d = some d
  acts (c ∷ cs) d = act c d >>= acts cs

  pub acts-append :
      (done ops : List C) (d e : D) → acts done d ≡ some e → acts (done ++ ops) d ≡ acts ops e
  unfolding acts
  acts-append [] ops d e h = ground (arith, h)
  acts-append (c ∷ done) ops d e h = elim (Option-cases (act c d)) [
    | inl fault ↦ ground (arith, fault)
    | inr (mid, ok) ↦ ground (arith, ok, acts-append done ops mid e)
  ]

-- That each move does to the data what the calls that it completes do at once.
pub record IsAtomic {p : Pthread} (g : Program p) (act : g.Call → g.Guarded → Option g.Guarded)
    : Type 0 where
  pub move_acts :
      {i : ℕ} {m n : g.Shared} {a b : g.Place} {ops : List g.Call}
      → g.Move i m a ops n b
      → g.Agrees (g.guarded m) a
      → acts act ops (g.guarded m) ≡ some (g.guarded n)

-- The runs from a state in which all threads stand at one place, with the calls they completed.
pub data Reach {p : Pthread} (g : Program p) (m : g.Shared) (a : g.Place)
    : List g.Call → g.Shared → (ℕ → g.Place) → Type 0 where
  at_start : Reach g m a [] m (λ i. a)
  later :
      {done ops : List g.Call} {n o : g.Shared} {pc : ℕ → g.Place} (i : ℕ) {b : g.Place}
      → Reach g m a done n pc
      → g.Move i n (pc i) ops o b
      → Reach g m a (done ++ ops) o (update pc i b)

module _ {p : Pthread} (law : IsPthread p) (g : Program p) where
  -- Each thread inside owns the mutex, and what it has read is still so.
  pub record IsApart (m : g.Shared) (pc : ℕ → g.Place) : Type 0 where
    pub exclusive : (i : ℕ) → g.inside (pc i) ≡ true → law.owner (g.mutex m) ≡ some i
    pub agrees : (i : ℕ) → g.Agrees (g.guarded m) (pc i)

  pub new-IsApart :
      (m : g.Shared) (a : g.Place) → g.inside a ≡ false → IsGuarded law g → IsApart m (λ i. a)
  new-IsApart m a out k = record {
    exclusive = λ i h. ground (arith, out, h);
    agrees = λ i. k.outside_agrees (g.guarded m) a out;
  }

  pub moved-IsApart :
      (k : IsGuarded law g) {m n : g.Shared} (pc : ℕ → g.Place) (i : ℕ) {b : g.Place}
      {ops : List g.Call}
      → g.Move i m (pc i) ops n b
      → IsApart m pc
      → IsApart n (update pc i b)
  moved-IsApart k {m} {n} pc i {b} mv u = record {
    exclusive = λ j h. elim (ℕ_discrete j i) [
      | yes same ↦ ground (arith, same, k.inside_owns mv (u.exclusive i))
      | no other ↦
          ground
            (arith, u.exclusive j, k.others_keep {j = j} mv (u.exclusive i) (λ e. other (sym e)))
    ];
    agrees = λ j. elim (ℕ_discrete j i) [
      | yes same ↦ ground (arith, same, k.move_agrees mv)
      | no other ↦ elim (Bool-cases (g.inside (pc j))) [
        | inl in_j ↦ elim (k.inside_writes mv) [
          | inl in_i ↦ ground (arith, u.exclusive i in_i, u.exclusive j in_j)
          | inr same ↦ ground (arith, same, u.agrees j)
        ]
        | inr out ↦ ground (arith, k.outside_agrees (g.guarded n) (pc j) out)
      ]
    ];
  }

  -- A thread can be put outside from without.
  pub outside-IsApart :
      (k : IsGuarded law g) (m : g.Shared) (pc : ℕ → g.Place) (i : ℕ) (b : g.Place)
      → g.inside b ≡ false
      → IsApart m pc
      → IsApart m (update pc i b)
  outside-IsApart k m pc i b out u = record {
    exclusive = λ j h. ground (arith, u.exclusive j);
    agrees = λ j. ground (arith, u.agrees j, k.outside_agrees (g.guarded m) b out);
  }

  module _ (k : IsGuarded law g) {act : g.Call → g.Guarded → Option g.Guarded} (c : IsAtomic g act)
      {m : g.Shared} {a : g.Place} (out : g.inside a ≡ false) where
    Reach-IsApart :
        {ops : List g.Call} {n : g.Shared} {pc : ℕ → g.Place} → Reach g m a ops n pc → IsApart n pc
    Reach-IsApart at_start = new-IsApart m a out k
    Reach-IsApart (later {pc} i r mv) = moved-IsApart k pc i mv (Reach-IsApart r)

    -- Each run is, for the data, a run of the calls one after the other.
    pub Reach-acts :
        {ops : List g.Call} {n : g.Shared} {pc : ℕ → g.Place}
        → Reach g m a ops n pc
        → acts act ops (g.guarded m) ≡ some (g.guarded n)
    unfolding acts
    Reach-acts at_start = refl
    Reach-acts (later {done} {ops} {n} i r mv) =
        acts-append act done ops (g.guarded m) (g.guarded n) (Reach-acts r)
        ∙ c.move_acts mv ((Reach-IsApart r).agrees i)
