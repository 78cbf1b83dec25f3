-- ===== src/QueueT.antt =====
-- QueueT.h: the blocking queue, as the list of its entries, oldest first. The mutex makes each
-- operation one step; `dequeue` is what a call returns, where `none` is the timeout (-1).
pub mod Threads
pub mod Atomic
pub mod Wakeups
pub mod Sleeper
use teachserver.Base.{ℕ, Option, none, some, List, [], ◌∷◌, ◌++◌, length}

module _ {ℓ} {A : Type ℓ} where
  unfoldable pub enqueue : A → List A → List A
  enqueue t queue = queue ++ t ∷ []

  unfoldable pub dequeue : List A → Option (A × List A)
  dequeue [] = none
  dequeue (out ∷ queue) = some (out, queue)

  unfoldable pub size : List A → ℕ
  size queue = length queue
