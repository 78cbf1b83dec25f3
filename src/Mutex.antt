-- ===== src/Mutex.antt =====
-- Mutex.h: the lock and the guard around a mutex of the pthread library, which is a parameter: a
-- record of its calls, with the number of the calling thread, and a record of what is documented of
-- them. A call of `lock` that answers `none` blocks.
pub mod Guarded
use teachserver.Base.{ℕ, ◌≡◌, refl, Option, none, some, arith}

pub record Pthread : Type 1 where
  pub Mutex : Type 0
  pub pthread_mutex_init : Mutex
  pub pthread_mutex_lock : ℕ → Mutex → Option Mutex
  pub pthread_mutex_unlock : ℕ → Mutex → Mutex

-- `owner` is the thread that has locked the mutex and not unlocked it yet.
pub record IsPthread (p : Pthread) : Type 0 where
  pub owner : p.Mutex → Option ℕ
  pub init_free : owner p.pthread_mutex_init ≡ none
  pub lock_waits : (i : ℕ) (m l : p.Mutex) → p.pthread_mutex_lock i m ≡ some l → owner m ≡ none
  pub lock_takes : (i : ℕ) (m l : p.Mutex) → p.pthread_mutex_lock i m ≡ some l → owner l ≡ some i
  pub lock_gets :
      (i : ℕ) (m : p.Mutex) → owner m ≡ none → (l : p.Mutex) × (p.pthread_mutex_lock i m ≡ some l)
  pub unlock_frees :
      (i : ℕ) (m : p.Mutex) → owner m ≡ some i → owner (p.pthread_mutex_unlock i m) ≡ none

module _ (p : Pthread) where
  open p use {Mutex, pthread_mutex_init, pthread_mutex_lock, pthread_mutex_unlock}

  abbrev pub new_mutex : Mutex
  new_mutex = pthread_mutex_init

  abbrev pub lock : ℕ → Mutex → Option Mutex
  lock i m = pthread_mutex_lock i m

  abbrev pub unlock : ℕ → Mutex → Mutex
  unlock i m = pthread_mutex_unlock i m

  -- MutexLockGuard: its constructor and its destructor.
  abbrev pub guard_begin : ℕ → Mutex → Option Mutex
  guard_begin i m = lock i m

  abbrev pub guard_end : ℕ → Mutex → Mutex
  guard_end i m = unlock i m

-- A mutex can be the number of its owner.
abbrev take_if_free : ℕ → Option ℕ → Option (Option ℕ)
take_if_free i none = some (some i)
take_if_free i (some j) = none

abbrev pub owned : Pthread
owned = record {
  Mutex = Option ℕ;
  pthread_mutex_init = none;
  pthread_mutex_lock = take_if_free;
  pthread_mutex_unlock = λ i m. none;
}

abbrev pub owned-IsPthread : IsPthread owned
owned-IsPthread = record {
  owner = λ m. m;
  init_free = refl;
  lock_waits = λ i m l e. ground (arith, e);
  lock_takes = λ i m l e. ground arith;
  lock_gets = λ i m e. (some i, ground arith);
  unlock_frees = λ i m e. refl;
}
